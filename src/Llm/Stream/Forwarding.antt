-- ===== src/Llm/Stream/Forwarding.antt =====
-- internal/llm/ollama.go: StreamChat hands on exactly the answer that it returns.
use go_agent_chat_server.Base.{
  ◌≡◌, ap, ◌∙◌, true, Bool-cases, inl, inr, ◌==◌, not, List, [], ◌∷◌, ◌++◌, Option, none, some,
  if◌then◌else◌,
}
use go_agent_chat_server.Base.Text.{Text, codes, is_empty, trim_space}
use go_agent_chat_server.Base.Exec.{Exec, Err, Result, ok, err, of_result}
use go_agent_chat_server.Model
use go_agent_chat_server.Llm.{
  Http, OllamaClient, OllamaChatResponse, StreamResponse, ollama_request,
}
use go_agent_chat_server.Llm.Stream.{
  Streamed, stop, or_stop, stopped_or, take_item, scan_lines, stream_chat,
}

-- What the callback has been handed (`log`) is the answer that the call returns.
record Logged {P : Type 0} (log : P → Text) (r : (Text × Option Err) × P) : Type 0 where
  same : log r.1 ≡ r.0.0

module _ {P A : Type 0} {log : P → Text} where
  Logged-stopped_or :
      (answer : Text) (f : Err → Err) (r : Result A) (p : P) (k : A → Streamed P)
      → log p ≡ answer
      → ((a : A) → Logged log (k a p))
      → Logged log (stopped_or answer f (r, p) k)
  Logged-stopped_or answer f (ok a) p k h kk = kk a
  Logged-stopped_or answer f (err e) p k h kk = record { same = h }

-- From a log of `answer` on, the log is what the call returns.
record LogsAnswer {P : Type 0} (log : P → Text) (answer : Text) (m : Streamed P) : Type 0 where
  at : (p : P) → log p ≡ answer → log (m p).1 ≡ (m p).0.0

module _ {P A : Type 0} {log : P → Text} where
  LogsAnswer-or_stop :
      (answer : Text) (f : Err → Err) (m : Exec P A) (k : A → Streamed P)
      → ((p : P) → log p ≡ answer → log (m p).1 ≡ answer)
      → ((a : A) → LogsAnswer log answer (k a))
      → LogsAnswer log answer (or_stop answer f m k)
  LogsAnswer-or_stop answer f m k km kk = record {
    at = λ p h.
        (Logged-stopped_or {log = log} answer f (m p).0 (m p).1 k (km p h)
          (λ a. record { same = (kk a).at (m p).1 (km p h) })).same;
  }

module _ {P : Type 0} (http : Http P) (on_delta : Text → Exec P (Unit {0})) (log : P → Text)
    (logs : (delta : Text) (p : P) → log (on_delta delta p).1 ≡ log p ++ delta) where
  next-Logged :
      (item : OllamaChatResponse) (more : Text → Streamed P)
      → ((full : Text) (p : P) → log p ≡ full → Logged log (more full p))
      → (answer : Text) (p : P) → log p ≡ answer
      → Logged log ((if item.done then stop answer none else more answer) p)
  next-Logged item more km answer p h = elim (Bool-cases item.done) [
    | inl last ↦ rw last (record { same = h })
    | inr further ↦ rw further (km answer p h)
  ]

  take_item-Logged :
      (item : OllamaChatResponse) (more : Text → Streamed P)
      → ((full : Text) (p : P) → log p ≡ full → Logged log (more full p))
      → (answer : Text) (p : P) → log p ≡ answer
      → Logged log (take_item http on_delta answer item more p)
  unfolding take_item
  take_item-Logged item more km answer p h = elim (Bool-cases (is_empty item.content)) [
    | inl empty ↦ rw empty (next-Logged item more km answer p h)
    | inr text ↦
        let grown : log (on_delta item.content p).1 ≡ answer ++ item.content =
          logs item.content p ∙ ap (λ t. t ++ item.content) h in
        rw text (
          Logged-stopped_or _ _ (on_delta item.content p).0 (on_delta item.content p).1 _ grown
            (λ _. next-Logged item more km (answer ++ item.content) _ grown))
  ]

  scan_lines-Logged :
      (lines : List Text) (e : Option Err) (answer : Text) (p : P)
      → log p ≡ answer
      → Logged log (scan_lines http on_delta answer lines e p)
  unfolding scan_lines
  scan_lines-Logged [] none answer p h = record { same = h }
  scan_lines-Logged [] (some e) answer p h = record { same = h }
  scan_lines-Logged (text ∷ lines) e answer p h = elim (Bool-cases (is_empty (trim_space text))) [
    | inl blank ↦ rw blank (scan_lines-Logged lines e answer p h)
    | inr line ↦ rw line (
        Logged-stopped_or answer _ (http.decode (trim_space text)) p _ h
          (λ item. take_item-Logged item _ (scan_lines-Logged lines e) answer p h))
  ]

  received-Logged :
      (response : StreamResponse) (error : Err) (p : P)
      → log p ≡ []
      → Logged log (
          (if not (response.status == 200)
              then stop [] (some error)
              else scan_lines http on_delta [] response.lines response.scan_error)
            p)
  received-Logged response error p h = elim (Bool-cases (response.status == 200)) [
    | inl fine ↦ rw fine (scan_lines-Logged response.lines response.scan_error [] p h)
    | inr refused ↦ rw refused (record { same = h })
  ]

  received-LogsAnswer :
      (response : StreamResponse) (error : Err)
      → LogsAnswer log [] (
          if not (response.status == 200)
          then stop [] (some error)
          else scan_lines http on_delta [] response.lines response.scan_error)
  received-LogsAnswer response error = record {
    at = λ p h. (received-Logged response error p h).same;
  }

  stream_chat-LogsAnswer :
      (sends : (url body : Text) (p : P) → log (http.send_stream url body p).1 ≡ log p)
      (c : OllamaClient) (model_name : Text) (messages : List Model.Message)
      → LogsAnswer log [] (stream_chat http on_delta c model_name messages)
  unfolding stream_chat
  stream_chat-LogsAnswer sends c model_name messages =
      LogsAnswer-or_stop [] _ (of_result (http.encode (ollama_request c model_name messages true)))
        _ (λ p h. h)
        λ body.
          LogsAnswer-or_stop [] _ (of_result (http.new_request (c.base_url ++ codes "/api/chat"))) _
            (λ p h. h)
            λ _.
              LogsAnswer-or_stop [] _ (http.send_stream _ body) _ (λ p h. sends _ body p ∙ h)
                λ response. received-LogsAnswer response _

  -- When the callback records what it is handed, even where it then fails, and sending the
  -- request leaves an empty record alone, the record at the end of StreamChat is exactly the
  -- answer that StreamChat returns, also beside an error.
  pub stream_chat-forwards :
      (sends : (url body : Text) (p : P) → log (http.send_stream url body p).1 ≡ log p)
      (c : OllamaClient) (model_name : Text) (messages : List Model.Message) (p : P)
      → log p ≡ []
      → log (stream_chat http on_delta c model_name messages p).1
        ≡ (stream_chat http on_delta c model_name messages p).0.0
  stream_chat-forwards sends c model_name messages p h =
      (stream_chat-LogsAnswer sends c model_name messages).at p h
