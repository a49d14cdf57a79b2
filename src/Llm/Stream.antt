-- ===== src/Llm/Stream.antt =====
-- internal/llm/ollama.go: StreamChat, which hands each piece of the answer to a callback.
pub mod Forwarding
mod Tests
use go_agent_chat_server.Base.{
  ℕ, Bool, true, false, ◌==◌, not, List, [], ◌∷◌, ◌++◌, Option, none, some, if◌then◌else◌,
}
use go_agent_chat_server.Base.Text.{Text, codes, is_empty, trim_space}
use go_agent_chat_server.Base.Exec.{
  Exec, Err, message, error_text, of_result, Result, ok, err, pure, attempt,
}
use go_agent_chat_server.Model
use go_agent_chat_server.Llm.{
  Http, OllamaClient, OllamaChatResponse, StreamResponse, ollama_request, status_error, wrap,
}

-- (answer, err): the answer is kept beside the error.
abbrev pub Streamed : Type 0 → Type 0
Streamed P = P → (Text × Option Err) × P

module _ {P : Type 0} where
  abbrev pub stop : Text → Option Err → Streamed P
  stop answer e p = ((answer, e), p)

  abbrev pub stopped_or :
      {A : Type 0} → Text → (Err → Err) → Result A × P → (A → Streamed P) → (Text × Option Err) × P
  stopped_or answer f (ok a, p) k = k a p
  stopped_or answer f (err e, p) k = ((answer, some (f e)), p)

  -- The error of a call ends the run with the answer so far.
  abbrev pub or_stop : {A : Type 0} → Text → (Err → Err) → Exec P A → (A → Streamed P) → Streamed P
  or_stop answer f m k p = stopped_or answer f (m p) k

module _ {P : Type 0} (http : Http P) (on_delta : Text → Exec P (Unit {0})) where
  -- The part of a round behind the decoding of a line: the rest of the loop is `more`.
  unfoldable pub take_item : Text → OllamaChatResponse → (Text → Streamed P) → Streamed P
  take_item answer item more =
      let next = λ (full : Text). if item.done then stop full none else more full in
      if is_empty item.content
      then next answer
      else or_stop (answer ++ item.content) (λ e. e) (on_delta item.content)
          λ _. next (answer ++ item.content)

  -- The loop over the lines.
  unfoldable pub scan_lines : Text → List Text → Option Err → Streamed P
  unfolding take_item codes trim_space
  scan_lines answer [] none = stop answer none
  scan_lines answer [] (some e) = stop answer (some (wrap (codes "scan ollama stream failed: ") e))
  scan_lines answer (text ∷ lines) scan_error =
      let line = trim_space text in
      let more = λ (full : Text). scan_lines full lines scan_error in
      if is_empty line
      then more answer
      else or_stop answer
          (λ e. message (
            codes "unmarshal ollama stream chunk failed: "
            ++ error_text e
            ++ codes ", line="
            ++ line))
          (of_result (http.decode line)) λ item. take_item answer item more

  unfoldable pub stream_chat : OllamaClient → Text → List Model.Message → Streamed P
  unfolding codes ollama_request status_error scan_lines
  stream_chat c model_name messages =
      let url = c.base_url ++ codes "/api/chat" in
      or_stop [] (wrap (codes "marshal ollama stream request failed: "))
        (of_result (http.encode (ollama_request c model_name messages true)))
        λ body.
          or_stop [] (wrap (codes "create ollama stream request failed: "))
            (of_result (http.new_request url))
            λ _.
              or_stop [] (wrap (codes "call ollama stream failed: ")) (http.send_stream url body)
                λ response.
                  if not (response.status == 200)
                  then stop [] (
                      some (
                        status_error (codes "ollama stream status=") response.status response.body))
                  else scan_lines [] response.lines response.scan_error
