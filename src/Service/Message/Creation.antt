-- ===== src/Service/Message/Creation.antt =====
-- internal/service/message_service.go: CreateMessage over the cached list of a session's messages.
use go_agent_chat_server.Base.{List, [], ◌∷◌, ◌++◌, Option, none, ◌≡◌, refl}
use go_agent_chat_server.Base.Text.{Text, codes, is_empty}
use go_agent_chat_server.Base.Exec.{Exec, pure, ignore, reject, message, ◌>>◌}
use go_agent_chat_server.Base.Exec.Leads.{
  Leads, Leads-bind, Leads-then, Leads-ignore, Leads-reject, Leads-map, Keeps-Leads,
}
use go_agent_chat_server.Model
use go_agent_chat_server.Metrics.{Process, call}
use go_agent_chat_server.Metrics.Leads.{call-Leads}
use go_agent_chat_server.Cache.Message.{delete_messages}
use go_agent_chat_server.Cache.Page.{delete_message_page_caches}
use go_agent_chat_server.Cache.Page.Frame.{page_caches-Keeps}
use go_agent_chat_server.Store.Message
use go_agent_chat_server.Service.{Env, fresh_id}
use go_agent_chat_server.Service.Message.{new_message, create_message}
use go_agent_chat_server.Service.Message.Views.{
  Entry, entry, role_or_user, Written, Views, Agrees, Shows,
}
use go_agent_chat_server.Service.Message.Coherence.{
  Shows-Keeps, check_ids-Leads, check_session-Leads,
}

module _ {S : Type 0} (env : Env S) (session_id : Text)
    (Has : List Entry → Option Text → S → Type 0) (views : Views env session_id Has) where
  show_none : (l : List Entry) (s : S) → Has l none s → Shows env Has l s
  show_none l s h = record { cached = none; held = h; agrees = tt }

  delete-Leads :
      (l : List Entry) (c : Option Text) {F : Process S → Type 0}
      → Leads
          (λ (p : Process S). Has l c p.outside)
          (ignore (call (delete_messages env.redis session_id)))
          (λ _ p. Has l none p.outside)
          F
  unfolding delete_messages call
  delete-Leads l c = record { at = λ p h. views.redis_del l c p.outside h }

  page_caches-Leads :
      (l : List Entry) {F : Process S → Type 0}
      → Leads
          (λ (p : Process S). Has l none p.outside)
          (ignore (call (delete_message_page_caches env.redis env.scan_rounds session_id)))
          (λ _ p. Has l none p.outside)
          F
  page_caches-Leads l = Leads-ignore _ (
      call-Leads _ (
        Keeps-Leads _ (
          page_caches-Keeps env.redis (λ cursor pattern. views.redis_scan cursor pattern l none)
            (λ keys. views.redis_del_others keys l) _ _)))

  stored_row-Leads :
      (l : List Entry) (c : Option Text) (row : Model.Message)
      → row.session_id ≡ session_id
      → Agrees env Has c l
      → Leads
          (λ (p : Process S). Has l c p.outside)
          (call (Message.create env.db row))
          (λ _ p. Has (l ++ entry row ∷ []) c p.outside)
          (λ p. Shows env Has l p.outside)
  unfolding Message.create
  stored_row-Leads l c row e a = call-Leads _ (
      Leads-map _ (views.message_create row l c e) (λ _ s h. h)
        (λ s h. record { cached = c; held = h; agrees = a }))

  returned-Leads :
      (l : List Entry) (row : Model.Message) {F : Process S → Type 0}
      → Leads
          (λ (p : Process S). Has (l ++ entry row ∷ []) none p.outside)
          (pure row)
          (λ m p. (m ≡ row) × Shows env Has (l ++ entry m ∷ []) p.outside)
          F
  returned-Leads l row = record { at = λ p h. (refl, show_none (l ++ entry row ∷ []) p.outside h) }

  -- The end of CreateMessage.
  abbrev insert : Model.Message → Exec (Process S) Model.Message
  insert row = do
    call (Message.create env.db row)
    ignore (call (delete_messages env.redis session_id))
    ignore (call (delete_message_page_caches env.redis env.scan_rounds session_id))
    pure row

  insert-Leads :
      (l : List Entry) (row : Model.Message)
      → row.session_id ≡ session_id
      → Leads
          (λ (p : Process S). Shows env Has l p.outside)
          (insert row)
          (λ m p. (m ≡ row) × Shows env Has (l ++ entry m ∷ []) p.outside)
          (λ p. Shows env Has l p.outside)
  insert-Leads l row e =
      let grown : List Entry = l ++ entry row ∷ [] in
      record {
        at = λ p h.
            (Leads-then _ _ (stored_row-Leads l h.cached row e h.agrees) (λ _.
                Leads-then _ _ (delete-Leads grown h.cached)
                  (λ _. Leads-then _ _ (page_caches-Leads grown) (λ _. returned-Leads l row)))).at
              p h.held;
      }

  fresh_id-Leads :
      (l : List Entry)
      → Leads
          (λ (p : Process S). Shows env Has l p.outside)
          (call (fresh_id env))
          (λ _ p. Shows env Has l p.outside)
          (λ p. Shows env Has l p.outside)
  unfolding fresh_id
  fresh_id-Leads l = call-Leads _ (
      Keeps-Leads _ (record {
        at = λ s h. (Shows-Keeps env session_id Has views l env.new_id (views.new_id l)).at s h;
      }))

  written-Leads :
      (l : List Entry) (role content id : Text)
      → Leads
          (λ (p : Process S). Shows env Has l p.outside)
          (insert (new_message env id session_id (role_or_user role) content))
          (λ m p.
            Written env session_id role content m × Shows env Has (l ++ entry m ∷ []) p.outside)
          (λ p. Shows env Has l p.outside)
  unfolding new_message
  written-Leads l role content id =
      Leads-map _ (insert-Leads l _ refl) (λ m p (e, h). ((id, e), h)) (λ p h. h)

  pub create_message-Leads :
      (l : List Entry) (user_id role content : Text)
      → Leads
          (λ (p : Process S). Shows env Has l p.outside)
          (create_message env user_id session_id role content)
          (λ m p.
            Written env session_id role content m × Shows env Has (l ++ entry m ∷ []) p.outside)
          (λ p. Shows env Has l p.outside)
  unfolding create_message codes
  create_message-Leads l user_id role content =
      Leads-then _ _ (check_ids-Leads env session_id Has views l user_id) (λ _.
        Leads-then (reject (is_empty content) (message (codes "content is required"))) _
          (Leads-reject _ _)
          (λ _.
            Leads-then _ _ (check_session-Leads env session_id Has views l user_id)
              (λ _. Leads-bind _ _ (fresh_id-Leads l) (written-Leads l role content))))
