-- ===== src/Middleware/Chain.antt =====
-- internal/middleware: the middleware in a chain. The HTTP framework runs the handlers of a request
-- in their order: when one returns, the next one runs, unless Abort was called, which no handler of
-- the program does; a call of c.Next runs the handlers that follow and then returns.
use go_agent_chat_server.Base.{false, List, [], ◌∷◌, ◌≡◌, refl, ◌∙◌, ◌⊎◌, inl, inr}
use go_agent_chat_server.Base.Text.{Text, codes, is_empty, text_eq, trim_space}
use go_agent_chat_server.Base.Int.{ℤ}
use go_agent_chat_server.Jwt.{Codec}
use go_agent_chat_server.Api.Code
use go_agent_chat_server.Api.Response.{Handler, RequestContext}
use go_agent_chat_server.Middleware.{
  Exchange, Outcome, returned, stops, passes, Middleware, write_json, endpoint,
}
use go_agent_chat_server.Middleware.Auth.{auth}
use go_agent_chat_server.Middleware.Auth.Admission.{IsAdmitted, IsRefused, auth-IsAdmitted}
use go_agent_chat_server.Middleware.CozeKey.{provided_key, coze_api_key}

module _ {S D : Type 0} (handler : RequestContext → Handler S D) where
  -- A request that was written to by the handler.
  abbrev pub handled : Exchange S → Exchange S
  handled x =
      let (answer, q) = handler x.context x.process in
      write_json answer.status answer.response.code answer.response.message
        (record x { process = q })

module _ {S D : Type 0} (run : List (Middleware S) → Exchange S → Outcome S)
    (run_nil : (x : Exchange S) → run [] x ≡ returned x)
    (run_stops : (m : Middleware S) (rest : List (Middleware S)) (x y : Exchange S)
      → m x ≡ stops y
      → run (m ∷ rest) x ≡ run rest y)
    (handler : RequestContext → Handler S D) where
  endpoint-run : (x : Exchange S) → run (endpoint handler ∷ []) x ≡ returned (handled handler x)
  unfolding endpoint
  endpoint-run x =
      run_stops (endpoint handler) [] x (handled handler x) refl ∙ run_nil (handled handler x)

  -- A request whose key is not the configured one, which is not blank, is answered with status 401,
  -- and its handler runs all the same, on the same process, and answers again.
  pub wrong_key-served :
      (api_key : Text) (x : Exchange S)
      → is_empty (trim_space api_key) ≡ false
      → text_eq (provided_key x.context) api_key ≡ false
      → run (coze_api_key api_key ∷ endpoint handler ∷ []) x
        ≡ returned
            (handled handler (write_json 401 Code.unauthorized (codes "invalid coze api key") x))
  wrong_key-served api_key x set wrong =
      run_stops (coze_api_key api_key) (endpoint handler ∷ []) x _ (refused api_key x set wrong)
      ∙ endpoint-run _
    where
      refused :
          (key : Text) (y : Exchange S)
          → is_empty (trim_space key) ≡ false
          → text_eq (provided_key y.context) key ≡ false
          → coze_api_key key y
            ≡ stops (write_json 401 Code.unauthorized (codes "invalid coze api key") y)
      refused key y set wrong = unfold coze_api_key in rw (set, wrong) refl

module _ {S D : Type 0} (run : List (Middleware S) → Exchange S → Outcome S)
    (run_nil : (x : Exchange S) → run [] x ≡ returned x)
    (run_stops : (m : Middleware S) (rest : List (Middleware S)) (x y : Exchange S)
      → m x ≡ stops y
      → run (m ∷ rest) x ≡ run rest y)
    (run_passes : (m : Middleware S) (rest : List (Middleware S)) (x y : Exchange S)
        (after : Outcome S → Outcome S)
      → m x ≡ passes y after
      → run (m ∷ rest) x ≡ after (run rest y))
    (codec : Codec) (secret : Text) (now : S → ℤ) (handler : RequestContext → Handler S D) where
  abbrev served : Exchange S → Outcome S
  served = run (auth codec secret now ∷ endpoint handler ∷ [])

  -- Behind Auth the handler runs exactly once whatever the request, and answers it. Either the
  -- header holds a token that was signed under the secret and has not expired, and the handler runs
  -- as for the token's user; or Auth has written one response of status 401, and the handler runs
  -- all the same, on the same process and for the user that was set before, and answers again.
  pub auth-served :
      (x : Exchange S)
      → (y : Exchange S) × (served x ≡ returned (handled handler y))
        × (IsAdmitted codec secret now x y ⊎ IsRefused codec secret now x y)
  auth-served x = elim (auth-IsAdmitted codec secret now x) [
    | inl (y, goes_on, admitted) ↦ (
      y,
      run_passes (auth codec secret now) _ x y _ goes_on
          ∙ endpoint-run run run_nil run_stops handler y,
      inl admitted,
    )
    | inr (y, ends, refused) ↦ (
      y,
      run_stops (auth codec secret now) _ x y ends ∙ endpoint-run run run_nil run_stops handler y,
      inr refused,
    )
  ]
