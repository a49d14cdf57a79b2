-- ===== src/Api/Chat/Gauge.antt =====
-- internal/api/chat.go: the count of the streams that are open.
use go_agent_chat_server.Base.{
  ℕ, Bool, true, false, refl, ap, ◌∙◌, List, Option, none, some, arith, if◌then◌else◌,
}
use go_agent_chat_server.Base.Text.{Text}
use go_agent_chat_server.Base.Int.{ℤ, pos, negsuc, ◌+ℤ◌}
use go_agent_chat_server.Base.Exec.{Err, Result, ok, err}
use go_agent_chat_server.Base.Exec.Keeps.{Keeps}
use go_agent_chat_server.Model
use go_agent_chat_server.Metrics.{
  Process, bumped_self, bumped_other, add, call, sse_connections_total, sse_connections_active,
}
use go_agent_chat_server.Queue.Event.{Value}
use go_agent_chat_server.Service.Chat.{ChatEnv, ChatService}
use go_agent_chat_server.Service.Chat.Answers.{chat_completion}
use go_agent_chat_server.Service.Chat.Slots.{HasSlots, calls, add-HasSlots, call-HasSlots}
use go_agent_chat_server.Service.Chat.Slots.Acquire.{add_back}
use go_agent_chat_server.Service.Chat.Slots.Answers.{chat_completion-HasSlots}
use go_agent_chat_server.Service.Chat.Slots.Streams.{
  stream_chat-HasSlots, stream_chat_completion-HasSlots,
}
use go_agent_chat_server.Api.AsyncChat.{ChatRequest}
use go_agent_chat_server.Api.Response.{RequestContext}
use go_agent_chat_server.Api.Sse.{
  Pipe, StreamJson, OpenAiMessage, write_counted, write_event_line, write_sse, write_marshalled,
  write_open_ai_stream_chunk, write_open_ai_stream_error, inc_sse_active, dec_sse_active,
  open_stream, close_stream,
}
use go_agent_chat_server.Api.Chat.{
  Reply, StreamHandler, refused, completed, event_stream, write_delta, write_end, run_chat_stream,
  write_chunk, write_completion_delta, write_completion_end, run_completion_stream, start_stream,
  refuse, check_chat_request, chat_stream, completed_or, complete, open_ai_chat_completions,
  OpenAiChatCompletionRequest,
}

module _ {S : Type 0} {n : ℕ} {z w : ℤ} where
  moved :
      (k : ℤ) (p : Process S)
      → HasSlots n z w p
      → HasSlots n z (w +ℤ k) (add sse_connections_active k p).1
  unfolding add
  moved k p h = record {
    slots = h.slots;
    in_flight = bumped_other p.counters _ _ k (λ e. ground arith) ∙ h.in_flight;
    streams = bumped_self p.counters _ k ∙ ap (λ x. x +ℤ k) h.streams;
  }

  open_stream-at : (p : Process S) → HasSlots n z w p → HasSlots n z (w +ℤ pos 1) (open_stream p).1
  unfolding open_stream inc_sse_active add
  open_stream-at p h = moved (pos 1) _ ((add-HasSlots sse_connections_total (pos 1) refl).at p h)

module _ {S : Type 0} (pipe : Pipe S) (json : StreamJson) {n : ℕ} {z w : ℤ} where
  close_stream-at :
      (p : Process S) → HasSlots n z (w +ℤ pos 1) p → HasSlots n z w (close_stream pipe p).1
  unfolding close_stream dec_sse_active add call
  close_stream-at p h =
      let closed = moved (negsuc 0) _ ((call-HasSlots pipe.close).at p h) in
      record {
        slots = closed.slots;
        in_flight = closed.in_flight;
        streams = closed.streams ∙ add_back w;
      }

  write_counted-HasSlots : (line : Text) → Keeps (HasSlots n z w) (write_counted pipe json line)
  unfolding write_counted
  write_counted-HasSlots line = search calls depth 16

  write_event_line-HasSlots :
      (event : Text) → Keeps (HasSlots n z w) (write_event_line pipe json event)
  unfolding write_event_line
  write_event_line-HasSlots event = search (calls, write_counted-HasSlots) depth 16

  write_sse-HasSlots :
      (event : Text) (payload : List (Text × Value))
      → Keeps (HasSlots n z w) (write_sse pipe json event payload)
  unfolding write_sse
  write_sse-HasSlots event payload =
      search (calls, write_counted-HasSlots, write_event_line-HasSlots) depth 16

  write_marshalled-HasSlots :
      (r : Result Text) → Keeps (HasSlots n z w) (write_marshalled pipe json r)
  unfolding write_marshalled
  write_marshalled-HasSlots r = search (calls, write_counted-HasSlots) depth 16

module _ {S M : Type 0} (o : ChatEnv S M) (s : ChatService) (pipe : Pipe S) (json : StreamJson)
    (user_id : Text) {n : ℕ} {z w : ℤ} where
  write_delta-HasSlots :
      (delta : Text) → Keeps (HasSlots n z w) (write_delta o s pipe json user_id delta)
  unfolding write_delta
  write_delta-HasSlots delta = search (write_sse-HasSlots pipe json)

  write_end-HasSlots : (e : Option Err) → Keeps (HasSlots n z w) (write_end o s pipe json user_id e)
  unfolding write_end
  write_end-HasSlots none = search (write_sse-HasSlots pipe json)
  write_end-HasSlots (some e) = search (write_sse-HasSlots pipe json)

  write_chunk-HasSlots :
      (model : Text) (delta : OpenAiMessage) (finish_reason : Text)
      → Keeps (HasSlots n z w) (write_chunk o s pipe json user_id model delta finish_reason)
  unfolding write_chunk write_open_ai_stream_chunk
  write_chunk-HasSlots model delta finish_reason = record {
    at = λ p h. (write_marshalled-HasSlots pipe json _).at p h;
  }

  write_completion_delta-HasSlots :
      (model delta : Text)
      → Keeps (HasSlots n z w) (write_completion_delta o s pipe json user_id model delta)
  unfolding write_completion_delta
  write_completion_delta-HasSlots model delta = write_chunk-HasSlots model _ _

  write_completion_end-HasSlots :
      (model : Text) (e : Option Err)
      → Keeps (HasSlots n z w) (write_completion_end o s pipe json user_id model e)
  unfolding write_completion_end write_open_ai_stream_error
  write_completion_end-HasSlots model none = search (calls, write_chunk-HasSlots) depth 16
  write_completion_end-HasSlots model (some e) = write_marshalled-HasSlots pipe json _

-- A goroutine that counts one open stream less, and leaves the slots and the calls in flight.
pub record Closes {S : Type 0} (run : Process S → Process S) : Type 0 where
  pub at : {n : ℕ} {z w : ℤ} (p : Process S) → HasSlots n z (w +ℤ pos 1) p → HasSlots n z w (run p)

-- What a handler that can stream leaves of the counts: all as it was, or one open stream more and a
-- goroutine that closes it.
abbrev pub Leaves : {S C : Type 0} → ℕ → ℤ → ℤ → Reply S C × Process S → Type 0
Leaves n z w (refused a, p) = HasSlots n z w p
Leaves n z w (completed x, p) = HasSlots n z w p
Leaves n z w (event_stream run, p) = HasSlots n z (w +ℤ pos 1) p × Closes run

pub record Balanced {S C : Type 0} (handler : StreamHandler S C) : Type 0 where
  pub at : {n : ℕ} {z w : ℤ} (p : Process S) → HasSlots n z w p → Leaves n z w (handler p)

module _ {S M : Type 0} (o : ChatEnv S M) (s : ChatService) (pipe : Pipe S) (json : StreamJson)
    (user_id : Text) where
  run_chat_stream-Closes : (req : ChatRequest) → Closes (run_chat_stream o s pipe json user_id req)
  unfolding run_chat_stream
  run_chat_stream-Closes req = record {
    at = λ p h. close_stream-at pipe json _ (
        (write_end-HasSlots o s pipe json user_id _).at _ (
          (stream_chat-HasSlots o s _ (write_delta-HasSlots o s pipe json user_id) user_id
              req.session_id req.model req.message).at
            p h));
  }

  run_completion_stream-Closes :
      (model : Text) (messages : List Model.Message)
      → Closes (run_completion_stream o s pipe json user_id model messages)
  unfolding run_completion_stream
  run_completion_stream-Closes model messages = record {
    at = λ p h. close_stream-at pipe json _ (
        (write_completion_end-HasSlots o s pipe json user_id model _).at _ (
          (stream_chat_completion-HasSlots o s _
              (write_completion_delta-HasSlots o s pipe json user_id model) user_id model
              messages).at
            p h));
  }

module _ {S C : Type 0} where
  refuse-Balanced :
      (status code : ℕ) (message : Text) → Balanced {S = S} {C = C} (refuse status code message)
  unfolding refuse
  refuse-Balanced status code message = record { at = λ p h. h }

  start_stream-Balanced :
      (run : Process S → Process S) → Closes run → Balanced {C = C} (start_stream run)
  unfolding start_stream
  start_stream-Balanced run closes = record { at = λ p h. (open_stream-at p h, closes) }

  if-Balanced :
      (b : Bool) (f g : StreamHandler S C) → Balanced f → Balanced g → Balanced (if b then f else g)
  if-Balanced true f g hf hg = hf
  if-Balanced false f g hf hg = hg

ruleset balanced_rules = (refuse-Balanced, start_stream-Balanced, if-Balanced)

module _ {S M : Type 0} (o : ChatEnv S M) (s : ChatService) (pipe : Pipe S) (json : StreamJson)
    (c : RequestContext) where
  check_chat_request-Balanced :
      (req : Result ChatRequest) → Balanced (check_chat_request o s pipe json c req)
  unfolding check_chat_request
  check_chat_request-Balanced (err e) = search balanced_rules
  check_chat_request-Balanced (ok req) =
      search (balanced_rules, run_chat_stream-Closes o s pipe json)

  completed_or-Leaves :
      {n : ℕ} {z w : ℤ} (model : Text) (r : Result Text) (q : Process S)
      → HasSlots n z w q
      → Leaves n z w (completed_or o s pipe json c model (r, q))
  unfolding completed_or
  completed_or-Leaves model (ok content) q k = k
  completed_or-Leaves model (err e) q k = k

  completed-Balanced :
      (req : OpenAiChatCompletionRequest) (user_id : Text) (messages : List Model.Message)
      → Balanced (λ p.
        completed_or o s pipe json c req.model (chat_completion o s user_id req.model messages p))
  completed-Balanced req user_id messages = record {
    at = λ p h.
        completed_or-Leaves req.model _ _
          ((chat_completion-HasSlots o s user_id req.model messages).at p h);
  }

  complete-Balanced : (req : OpenAiChatCompletionRequest) → Balanced (complete o s pipe json c req)
  unfolding complete
  complete-Balanced req =
      search (balanced_rules, run_completion_stream-Closes o s pipe json, completed-Balanced)

  -- ChatStream and OpenAIChatCompletions balance what they count, on every path, whatever the
  -- request, the services and the writes to the response do: from a state with a number of open
  -- streams, of taken slots and of calls in flight, a handler that answers without a stream leaves
  -- the three as they were; one that starts a stream leaves one open stream more, and its
  -- goroutine, from whatever state it starts, ends with one open stream less and leaves the other
  -- two as they were.
  pub handlers-Balanced :
      (unmarshal : Text → Result ChatRequest) (body : Text)
      (req : Result OpenAiChatCompletionRequest)
      → Balanced (chat_stream o s pipe json c unmarshal body)
        × Balanced (open_ai_chat_completions o s pipe json c req)
  unfolding chat_stream open_ai_chat_completions
  handlers-Balanced unmarshal body (err e) =
      (search (balanced_rules, check_chat_request-Balanced), search balanced_rules)
  handlers-Balanced unmarshal body (ok req) = (
    search (balanced_rules, check_chat_request-Balanced),
    search (balanced_rules, complete-Balanced),
  )
