-- ===== src/Api/Chat.antt =====
-- internal/api/chat.go: the handlers.
pub mod Gauge
use go_agent_chat_server.Base.{
  ℕ, ◌/◌, Bool, true, ◌||◌, nonempty, List, [], ◌∷◌, ◌++◌, map, Option, none, some, if◌then◌else◌,
}
use go_agent_chat_server.Base.Text.{Text, codes, is_empty}
use go_agent_chat_server.Base.Decimal.{format_uint}
use go_agent_chat_server.Base.Exec.{Exec, Err, error_text, Result, ok, err, ignore, ◌>>◌}
use go_agent_chat_server.Model
use go_agent_chat_server.Metrics.{Process, call}
use go_agent_chat_server.Queue.Event.{text, flag}
use go_agent_chat_server.Api.Code
use go_agent_chat_server.Api.AsyncChat.{ChatRequest}
use go_agent_chat_server.Api.Knowledge.{write_chat_error}
use go_agent_chat_server.Api.Response.{
  Answer, Handler, RequestContext, current_user_id, answer, error, serve, bind_and_validate,
  reply_success,
}
use go_agent_chat_server.Api.Sse.{
  OpenAiMessage, OpenAiChatCompletionResponse, Pipe, StreamJson, write_sse,
  write_open_ai_stream_chunk, write_open_ai_stream_error, open_stream, close_stream,
}
use go_agent_chat_server.Service.Chat.{ChatEnv, ChatService, ChatResult}
use go_agent_chat_server.Service.Chat.Answers.{chat_completion}
use go_agent_chat_server.Service.Chat.Answers
use go_agent_chat_server.Service.Chat.Streams
use go_agent_chat_server.Service.Chat.Streams.{stream_chat_completion}

pub record OpenAiChatCompletionRequest : Type 0 where
  pub model : Text
  pub messages : List OpenAiMessage
  pub stream : Bool

-- How a handler that can stream ends: with c.JSON of an error or of a value, or with the pipe as the
-- body of the response and a goroutine that writes to it.
pub data Reply (S C : Type 0) : Type 0 where
  refused : Answer (Unit {0}) → Reply S C
  completed : C → Reply S C
  event_stream : (Process S → Process S) → Reply S C

abbrev pub StreamHandler : Type 0 → Type 0 → Type 0
StreamHandler S C = Process S → Reply S C × Process S

module _ {S C : Type 0} where
  unfoldable pub refuse : ℕ → ℕ → Text → StreamHandler S C
  unfolding answer error
  refuse status code message p = (refused (answer status (error code message)), p)

  unfoldable pub start_stream : (Process S → Process S) → StreamHandler S C
  unfolding open_stream
  start_stream goroutine p = (event_stream goroutine, (open_stream p).1)

unfoldable pub to_messages : List OpenAiMessage → List Model.Message
to_messages = map (λ m. record {
  id = [];
  session_id = [];
  role = m.role;
  content = m.content;
  created_at = 0;
  updated_at = 0;
})

unfoldable pub no_message : OpenAiMessage
no_message = record { role = []; content = [] }

-- A response with one choice, at a reading of the clock in nanoseconds.
unfoldable pub completion :
    ℕ → Text → Text → OpenAiMessage → OpenAiMessage → Text → OpenAiChatCompletionResponse
unfolding codes format_uint
completion now object model message delta finish_reason = record {
  id = codes "chatcmpl-" ++ format_uint now;
  object = object;
  created = now / 1000000000;
  model = model;
  choices =
      record { index = 0; message = message; delta = delta; finish_reason = finish_reason } ∷ [];
}

module _ {S M : Type 0} (o : ChatEnv S M) (s : ChatService) (c : RequestContext) where
  unfoldable pub chat : Result ChatRequest → Handler S ChatResult
  unfolding current_user_id write_chat_error reply_success bind_and_validate Answers.chat
  chat req = bind_and_validate req λ req.
      serve (Answers.chat o s (current_user_id c) req.session_id req.model req.message)
        write_chat_error reply_success

module _ {S M : Type 0} (o : ChatEnv S M) (s : ChatService) (pipe : Pipe S) (json : StreamJson)
    (user_id : Text) where
  -- The callback of ChatStream.
  unfoldable pub write_delta : Text → Exec (Process S) (Unit {0})
  unfolding codes write_sse
  write_delta delta = write_sse pipe json (codes "message") ((codes "delta", text delta) ∷ [])

  -- The last event of ChatStream.
  unfoldable pub write_end : Option Err → Exec (Process S) (Unit {0})
  unfolding codes error_text write_sse
  write_end none = write_sse pipe json (codes "done") ((codes "done", flag true) ∷ [])
  write_end (some e) =
      write_sse pipe json (codes "error") ((codes "error", text (error_text e)) ∷ [])

  -- The goroutine of ChatStream.
  unfoldable pub run_chat_stream : ChatRequest → Process S → Process S
  unfolding write_delta write_end close_stream Streams.stream_chat
  run_chat_stream req p =
      let (result, q) =
        Streams.stream_chat o s write_delta user_id req.session_id req.model req.message p in
      (close_stream pipe (write_end result.1 q).1).1

  -- A chunk at the present reading of the clock.
  unfoldable pub write_chunk : Text → OpenAiMessage → Text → Exec (Process S) (Unit {0})
  unfolding codes completion no_message write_open_ai_stream_chunk
  write_chunk model delta finish_reason p =
      write_open_ai_stream_chunk pipe json
        (completion (o.env.db.now p.outside) (codes "chat.completion.chunk") model no_message delta
          finish_reason)
        p

  unfoldable pub write_completion_delta : Text → Text → Exec (Process S) (Unit {0})
  unfolding write_chunk
  write_completion_delta model delta = write_chunk model (record { role = []; content = delta }) []

  unfoldable pub write_completion_end : Text → Option Err → Exec (Process S) (Unit {0})
  unfolding codes write_chunk no_message write_open_ai_stream_error
  write_completion_end model none = do
    ignore (write_chunk model no_message (codes "stop"))
    ignore (call (pipe.write (codes "data: [DONE]\n\n")))
  write_completion_end model (some e) = write_open_ai_stream_error pipe json e

  -- The goroutine of OpenAIChatCompletions.
  unfoldable pub run_completion_stream : Text → List Model.Message → Process S → Process S
  unfolding write_completion_delta write_completion_end close_stream stream_chat_completion
  run_completion_stream model messages p =
      let (result, q) =
        stream_chat_completion o s (write_completion_delta model) user_id model messages p in
      (close_stream pipe (write_completion_end model result.1 q).1).1

module _ {S M : Type 0} (o : ChatEnv S M) (s : ChatService) (pipe : Pipe S) (json : StreamJson)
    (c : RequestContext) where
  unfoldable pub check_chat_request : Result ChatRequest → StreamHandler S (Unit {0})
  unfolding codes error_text current_user_id refuse start_stream run_chat_stream
  check_chat_request (err e) =
      refuse 400 Code.invalid_request (codes "invalid json: " ++ error_text e)
  check_chat_request (ok req) =
      if is_empty req.session_id || is_empty req.message
      then refuse 400 Code.invalid_request (codes "session_id and message are required")
      else start_stream (run_chat_stream o s pipe json (current_user_id c) req)

  -- The body of the request is decoded by `unmarshal`.
  unfoldable pub chat_stream : (Text → Result ChatRequest) → Text → StreamHandler S (Unit {0})
  unfolding codes refuse check_chat_request
  chat_stream unmarshal body =
      if is_empty body
      then refuse 400 Code.invalid_request (codes "empty request body")
      else check_chat_request (unmarshal body)

  unfoldable pub completed_or :
      Text → Result Text × Process S → Reply S OpenAiChatCompletionResponse × Process S
  unfolding codes write_chat_error completion no_message
  completed_or model (err e, p) = (refused (write_chat_error e), p)
  completed_or model (ok content, p) = (
    completed (
        completion (o.env.db.now p.outside) (codes "chat.completion") model
          (record { role = codes "assistant"; content = content }) no_message (codes "stop")),
    p,
  )

  unfoldable pub complete :
      OpenAiChatCompletionRequest → StreamHandler S OpenAiChatCompletionResponse
  unfolding current_user_id to_messages start_stream run_completion_stream completed_or
      chat_completion
  complete req =
      let messages = to_messages req.messages in
      let user_id = current_user_id c in
      if req.stream
      then start_stream (run_completion_stream o s pipe json user_id req.model messages)
      else λ p. completed_or req.model (chat_completion o s user_id req.model messages p)

  unfoldable pub open_ai_chat_completions :
      Result OpenAiChatCompletionRequest → StreamHandler S OpenAiChatCompletionResponse
  unfolding codes refuse complete
  open_ai_chat_completions (err e) = refuse 400 Code.invalid_request (codes "invalid request")
  open_ai_chat_completions (ok req) =
      if nonempty req.messages
      then complete req
      else refuse 400 Code.invalid_request (codes "messages are required")
