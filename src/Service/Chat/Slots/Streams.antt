-- ===== src/Service/Chat/Slots/Streams.antt =====
-- internal/service/chat_service.go and internal/llm/ollama.go: a call that streams gives its slot
-- back, when the callback leaves the slots alone.
use go_agent_chat_server.Base.{ℕ, ◌+◌, refl, List, [], ◌∷◌, Option, none, some}
use go_agent_chat_server.Base.Text.{Text}
use go_agent_chat_server.Base.Int.{ℤ, pos, ◌+ℤ◌}
use go_agent_chat_server.Base.Exec.{Exec, Err, Result, ok, err}
use go_agent_chat_server.Base.Exec.Keeps.{Keeps}
use go_agent_chat_server.Model.{Message}
use go_agent_chat_server.Metrics.{Process, llm_call_total}
use go_agent_chat_server.Llm.{OllamaChatResponse, lift_http}
use go_agent_chat_server.Llm.Stream.{Streamed, stop, or_stop, stopped_or, take_item, scan_lines}
use go_agent_chat_server.Llm.Stream
use go_agent_chat_server.Service.Chat.{ChatEnv, ChatService}
use go_agent_chat_server.Service.Chat.Models.{mock_chunks, mock_stream_chat, stream_model}
use go_agent_chat_server.Service.Chat.Streams.{
  check_streamed, stream_returned, counted_stream, stream_and_store, stream_messages, stream_chat,
  check_completion, stream_chat_completion,
}
use go_agent_chat_server.Service.Chat.Slots.{
  HasSlots, calls, add-HasSlots, create_message-HasSlots, list_messages-HasSlots,
}
use go_agent_chat_server.Service.Chat.Slots.Acquire.{
  add_elapsed-HasSlots, check_user_llm_rate_limit-HasSlots, Keeps-stream_slot,
}
use go_agent_chat_server.Service.Chat.Slots.Answers.{
  inject_system_context-HasSlots, publish_chat_event-HasSlots, check_request-HasSlots,
}

module _ {P A : Type 0} {I : P → Type 0} where
  stopped_or-at :
      (answer : Text) (f : Err → Err) (r : Result A) (p : P) (k : A → Streamed P)
      → I p
      → ((a : A) → Keeps I (k a))
      → I (stopped_or answer f (r, p) k).1
  stopped_or-at answer f (ok a) p k h kk = (kk a).at p h
  stopped_or-at answer f (err e) p k h kk = h

  Keeps-or_stop :
      (answer : Text) (f : Err → Err) (m : Exec P A) (k : A → Streamed P)
      → Keeps I m
      → ((a : A) → Keeps I (k a))
      → Keeps I (or_stop answer f m k)
  Keeps-or_stop answer f m k km kk = record {
    at = λ p h. stopped_or-at answer f (m p).0 (m p).1 k (km.at p h) kk;
  }

Keeps-stop :
    {P : Type 0} {I : P → Type 0} (answer : Text) (e : Option Err) → Keeps I (stop answer e)
Keeps-stop answer e = record { at = λ p h. h }

ruleset stream_rules = (calls, Keeps-or_stop, Keeps-stop)

module _ {S M : Type 0} (o : ChatEnv S M) (c : ChatService)
    (on_delta : Text → Exec (Process S) (Unit {0})) {n : ℕ} {z w : ℤ}
    (kd : (delta : Text) → Keeps (HasSlots n z w) (on_delta delta)) where
  take_item-HasSlots :
      (answer : Text) (item : OllamaChatResponse) (more : Text → Streamed (Process S))
      → ((full : Text) → Keeps (HasSlots n z w) (more full))
      → Keeps (HasSlots n z w) (take_item (lift_http o.http) on_delta answer item more)
  unfolding take_item
  take_item-HasSlots answer item more km = search (stream_rules, kd, km) depth 16

  scan_lines-HasSlots :
      (answer : Text) (lines : List Text) (e : Option Err)
      → Keeps (HasSlots n z w) (scan_lines (lift_http o.http) on_delta answer lines e)
  unfolding scan_lines
  scan_lines-HasSlots answer [] none = Keeps-stop _ _
  scan_lines-HasSlots answer [] (some e) = Keeps-stop _ _
  scan_lines-HasSlots answer (text ∷ lines) e =
      let more : (full : Text)
          → Keeps (HasSlots n z w) (scan_lines (lift_http o.http) on_delta full lines e) =
        λ full. scan_lines-HasSlots full lines e in
      search (stream_rules, take_item-HasSlots, more) depth 16

  llm_stream_chat-HasSlots :
      (model_name : Text) (messages : List Message)
      → Keeps
          (HasSlots n z w)
          (Stream.stream_chat (lift_http o.http) on_delta c.ollama_client model_name messages)
  unfolding Stream.stream_chat
  llm_stream_chat-HasSlots model_name messages = search (stream_rules, scan_lines-HasSlots) depth 16

  mock_chunks-HasSlots :
      (answer : Text) (chunks : List Text)
      → Keeps (HasSlots n z w) (mock_chunks o c on_delta answer chunks)
  unfolding mock_chunks
  mock_chunks-HasSlots answer [] = Keeps-stop _ _
  mock_chunks-HasSlots answer (chunk ∷ chunks) =
      search (stream_rules, kd, mock_chunks-HasSlots answer chunks) depth 16

  stream_model-HasSlots :
      (model_name : Text) (messages : List Message)
      → Keeps (HasSlots n z w) (stream_model o c on_delta model_name messages)
  unfolding stream_model mock_stream_chat
  stream_model-HasSlots model_name messages =
      search (stream_rules, mock_chunks-HasSlots, llm_stream_chat-HasSlots) depth 16

  check_streamed-HasSlots :
      (next : Text → Streamed (Process S)) (result : Text × Option Err)
      → ((answer : Text) → Keeps (HasSlots n z w) (next answer))
      → Keeps (HasSlots n z w) (check_streamed o c next result)
  unfolding check_streamed
  check_streamed-HasSlots next (answer, none) kn = kn answer
  check_streamed-HasSlots next (answer, some e) kn = search stream_rules depth 16

  stream_returned-HasSlots :
      (start : ℕ) (next : Text → Streamed (Process S)) (result : Text × Option Err)
      → ((answer : Text) → Keeps (HasSlots n z w) (next answer))
      → Keeps (HasSlots n z w) (stream_returned o c start next result)
  unfolding stream_returned
  stream_returned-HasSlots start next result kn =
      search (stream_rules, add_elapsed-HasSlots, check_streamed-HasSlots, kn) depth 16

  counted_stream-HasSlots :
      (model : Streamed (Process S)) (next : Text → Streamed (Process S))
      → Keeps (HasSlots n z w) model
      → ((answer : Text) → Keeps (HasSlots n z w) (next answer))
      → Keeps (HasSlots n z w) (counted_stream o c model next)
  unfolding counted_stream
  counted_stream-HasSlots model next km kn = record {
    at = λ p h.
        (stream_returned-HasSlots _ next _ kn).at _
          (km.at _ ((add-HasSlots llm_call_total (pos 1) refl).at p h));
  }

  stream_and_store-HasSlots :
      (user_id session_id model_name user_message : Text) (messages : List Message)
      → Keeps
          (HasSlots n z w)
          (stream_and_store o c on_delta user_id session_id model_name user_message messages)
  unfolding stream_and_store
  stream_and_store-HasSlots user_id session_id model_name user_message messages =
      search
        (
          stream_rules, counted_stream-HasSlots, stream_model-HasSlots, create_message-HasSlots,
          publish_chat_event-HasSlots,
        )
        depth 20

  completed-HasSlots :
      (model_name : Text) (messages : List Message)
      → Keeps (HasSlots n z w) (
          counted_stream o c
            (stream_model o c on_delta model_name messages)
            (λ answer. stop answer none))
  completed-HasSlots model_name messages =
      counted_stream-HasSlots _ _ (stream_model-HasSlots model_name messages)
        (λ answer. Keeps-stop answer none)

module _ {S M : Type 0} (o : ChatEnv S M) (c : ChatService) {n : ℕ} {z w : ℤ} where
  stream_messages-HasSlots :
      (user_id session_id user_message : Text)
      → Keeps (HasSlots n z w) (stream_messages o c user_id session_id user_message)
  unfolding stream_messages
  stream_messages-HasSlots user_id session_id user_message =
      search
        (
          calls, check_request-HasSlots, check_user_llm_rate_limit-HasSlots,
          create_message-HasSlots, list_messages-HasSlots, inject_system_context-HasSlots,
        )
        depth 20

  check_completion-HasSlots :
      (user_id : Text) (messages : List Message)
      → Keeps (HasSlots n z w) (check_completion o c user_id messages)
  unfolding check_completion
  check_completion-HasSlots user_id messages =
      search (calls, check_user_llm_rate_limit-HasSlots) depth 20

  module _ (on_delta : Text → Exec (Process S) (Unit {0}))
      (kd : (delta : Text) → Keeps (HasSlots (n + 1) (z +ℤ pos 1) w) (on_delta delta)) where
    -- When the callback leaves them alone, StreamChat leaves the number of taken slots, the count
    -- of calls in flight and the count of open streams as it found them, whatever the outcome,
    -- errors of every call included.
    pub stream_chat-HasSlots :
        (user_id session_id model_name user_message : Text)
        → Keeps
            (HasSlots n z w)
            (stream_chat o c on_delta user_id session_id model_name user_message)
    unfolding stream_chat
    stream_chat-HasSlots user_id session_id model_name user_message =
        search
          (stream_rules, kd, stream_messages-HasSlots, Keeps-stream_slot, stream_and_store-HasSlots)
          depth 20

    -- When the callback leaves them alone, StreamChatCompletion leaves the number of taken slots,
    -- the count of calls in flight and the count of open streams as it found them, whatever the
    -- outcome, errors of every call included.
    pub stream_chat_completion-HasSlots :
        (user_id model_name : Text) (messages : List Message)
        → Keeps (HasSlots n z w) (stream_chat_completion o c on_delta user_id model_name messages)
    unfolding stream_chat_completion
    stream_chat_completion-HasSlots user_id model_name messages =
        search (stream_rules, kd, check_completion-HasSlots, Keeps-stream_slot, completed-HasSlots)
          depth 20
