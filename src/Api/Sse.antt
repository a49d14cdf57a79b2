-- ===== src/Api/Sse.antt =====
-- internal/api/chat.go: what the streams write. The pipe to the response and JSON are parameters.
use go_agent_chat_server.Base.{ℕ, List, ◌++◌, if◌then◌else◌}
use go_agent_chat_server.Base.Text.{Text, codes, is_empty}
use go_agent_chat_server.Base.Int.{pos, negsuc}
use go_agent_chat_server.Base.Exec.{
  Exec, Err, error_text, Result, pure, fail, of_result, on_error, ignore, ◌>>=◌, ◌>>◌,
}
use go_agent_chat_server.Metrics.{
  Process, add, call, sse_connections_total, sse_connections_active, sse_write_error_total,
}
use go_agent_chat_server.Queue.Event.{Value}

pub record OpenAiMessage : Type 0 where
  pub role : Text
  pub content : Text

pub record OpenAiChoice : Type 0 where
  pub index : ℕ
  pub message : OpenAiMessage
  pub delta : OpenAiMessage
  pub finish_reason : Text

pub record OpenAiChatCompletionResponse : Type 0 where
  pub id : Text
  pub object : Text
  pub created : ℕ
  pub model : Text
  pub choices : List OpenAiChoice

-- The writer of io.Pipe.
pub record Pipe (S : Type 0) : Type 0 where
  pub write : Text → Exec S (Unit {0})
  pub close : Exec S (Unit {0})

-- json.Marshal of a map, of a chunk, and of the map {"error": {"message": …}}.
pub record StreamJson : Type 0 where
  pub marshal_map : List (Text × Value) → Result Text
  pub marshal_chunk : OpenAiChatCompletionResponse → Result Text
  pub marshal_error : Text → Result Text

module _ {S : Type 0} (pipe : Pipe S) (json : StreamJson) where
  -- fmt.Fprintf to the writer, whose failure is counted.
  unfoldable pub write_counted : Text → Exec (Process S) (Unit {0})
  write_counted line =
      on_error (call (pipe.write line)) (λ e. do add sse_write_error_total (pos 1); fail e) pure

  unfoldable pub write_event_line : Text → Exec (Process S) (Unit {0})
  unfolding codes write_counted
  write_event_line event =
      if is_empty event then pure tt else write_counted (codes "event: " ++ event ++ codes "\n")

  unfoldable pub data_line : Text → Text
  unfolding codes
  data_line data_text = codes "data: " ++ data_text ++ codes "\n\n"

  unfoldable pub write_sse : Text → List (Text × Value) → Exec (Process S) (Unit {0})
  unfolding write_event_line write_counted data_line
  write_sse event payload = do
    data_text ← of_result (json.marshal_map payload)
    write_event_line event
    write_counted (data_line data_text)

  -- writeOpenAIStreamChunk of a value that marshals to `marshalled`.
  unfoldable pub write_marshalled : Result Text → Exec (Process S) (Unit {0})
  unfolding write_counted data_line
  write_marshalled marshalled = do
    data_text ← of_result marshalled
    write_counted (data_line data_text)

  unfoldable pub write_open_ai_stream_chunk :
      OpenAiChatCompletionResponse → Exec (Process S) (Unit {0})
  unfolding write_marshalled
  write_open_ai_stream_chunk chunk = write_marshalled (json.marshal_chunk chunk)

  unfoldable pub write_open_ai_stream_error : Err → Exec (Process S) (Unit {0})
  unfolding write_marshalled error_text
  write_open_ai_stream_error e = write_marshalled (json.marshal_error (error_text e))

module _ {S : Type 0} where
  unfoldable pub inc_sse_active : Exec (Process S) (Unit {0})
  inc_sse_active = add sse_connections_active (pos 1)

  unfoldable pub dec_sse_active : Exec (Process S) (Unit {0})
  dec_sse_active = add sse_connections_active (negsuc 0)

  -- What a handler counts before it starts the goroutine of a stream.
  unfoldable pub open_stream : Exec (Process S) (Unit {0})
  unfolding inc_sse_active
  open_stream = do add sse_connections_total (pos 1); inc_sse_active

  -- The deferred calls of the goroutine, in their order.
  unfoldable pub close_stream : Pipe S → Exec (Process S) (Unit {0})
  unfolding dec_sse_active
  close_stream pipe = do ignore (call pipe.close); dec_sse_active
