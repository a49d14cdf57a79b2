-- ===== src/Service/Message/Coherence.antt =====
-- internal/service/message_service.go: the list of a session's messages over the cache of
-- internal/cache/message_cache.go.
use go_agent_chat_server.Base.{ℕ, List, Option, none, some, ◌≡◌, refl, inl, inr, ◌⊎◌}
use go_agent_chat_server.Base.Text.{Text}
use go_agent_chat_server.Base.Exec.{Exec, Result, ok, err, pure, of_result, ◌>>=◌}
use go_agent_chat_server.Base.Exec.Keeps.{Keeps, keeps_rules}
use go_agent_chat_server.Base.Exec.Leads.{
  Leads, Leads-on_error, Leads-bind, Leads-then, Leads-ignore, Leads-map, Leads-given, Keeps-Leads,
}
use go_agent_chat_server.Model
use go_agent_chat_server.Metrics.{Process}
use go_agent_chat_server.Metrics.Leads.{call-Leads, add-Leads}
use go_agent_chat_server.Cache.Message.{message_cache_key, decode, get_messages, set_messages}
use go_agent_chat_server.Store.Session
use go_agent_chat_server.Store.Message
use go_agent_chat_server.Service.{Env}
use go_agent_chat_server.Service.Message.{
  check_ids, check_session, list_from_db, cached_or_db, list_messages,
}
use go_agent_chat_server.Service.Message.Views.{Entry, entries, Views, Agrees, Shows}

module _ {S : Type 0} (env : Env S) (session_id : Text)
    (Has : List Entry → Option Text → S → Type 0) (views : Views env session_id Has)
    (l : List Entry) where
  abbrev Good : S → Type 0
  Good = Shows env Has l

  abbrev Listed : List Model.Message → S → Type 0
  Listed ms s = (entries ms ≡ l) × Good s

  abbrev Found : Option (List Model.Message) → S → Type 0
  Found none s = Good s
  Found (some ms) s = Listed ms s

  show : (c : Option Text) → Agrees env Has c l → (s : S) → Has l c s → Good s
  show c a s h = record { cached = c; held = h; agrees = a }

  from_cached :
      {A : Type 0} {Q : A → S → Type 0} {E : S → Type 0} (m : Exec S A)
      → ((c : Option Text) → Agrees env Has c l → Leads (Has l c) m Q E)
      → Leads Good m Q E
  from_cached m f = record { at = λ s h. (f h.cached h.agrees).at s h.held }

  pub Shows-Keeps :
      {R : Type 0} (m : S → R × S) → ((c : Option Text) → Keeps (Has l c) m) → Keeps Good m
  Shows-Keeps m km = record {
    at = λ s h. show h.cached h.agrees (m s).1 ((km h.cached).at s h.held);
  }

  decode-Leads :
      (v : Option Text)
      → Leads (λ s. Agrees env Has v l × Good s) (decode env.redis env.json v) Found Good
  unfolding decode
  decode-Leads none = record { at = λ s (a, h). h }
  decode-Leads (some value) = record { at = λ s ((ms, e, g), h). rw e (g, h) }

  seen : (v c : Option Text) → (v ≡ c) ⊎ (v ≡ none) → Agrees env Has c l → Agrees env Has v l
  seen v c (inl e) a = rw e a
  seen v c (inr e) a = rw e tt

  get-Leads : Leads Good (get_messages env.redis env.json session_id) Found Good
  unfolding get_messages
  get-Leads =
      Leads-bind (env.redis.get (message_cache_key session_id)) (decode env.redis env.json)
        (from_cached _ (λ c a.
          Leads-map _ (views.redis_get l c) (λ v s (w, h). (seen v c w a, show c a s h))
            (show c a)))
        decode-Leads

  stored-Leads :
      (ms : List Model.Message) (ttl : ℕ) (r : Result Text)
      → env.json.marshal_messages ms ≡ r
      → entries ms ≡ l
      → Leads Good
          (of_result r >>= (λ encoded. env.redis.set (message_cache_key session_id) encoded ttl))
          (λ _. Good)
          Good
  stored-Leads ms ttl (err e) p g = record { at = λ s h. h }
  stored-Leads ms ttl (ok value) p g =
      let fresh : Agrees env Has (some value) l = (ms, views.unmarshal_marshal ms value p, g) in
      from_cached _ (λ c a.
        Leads-map _ (views.redis_set value ttl l c) (λ _ s h. show (some value) fresh s h)
          (λ s. elim [ inl h ↦ show c a s h | inr h ↦ show (some value) fresh s h ]))

  set-Leads :
      (ms : List Model.Message)
      → entries ms ≡ l
      → Leads Good (set_messages env.redis env.json session_id ms) (λ _. Good) Good
  unfolding set_messages
  set-Leads ms e = stored-Leads ms _ (env.json.marshal_messages ms) refl e

  list-Leads : Leads Good (Message.list_by_session_id env.db session_id) Listed Good
  unfolding Message.list_by_session_id
  list-Leads =
      from_cached _
        (λ c a. Leads-map _ (views.message_find l c) (λ ms s (e, h). (e, show c a s h)) (show c a))

  pure-Leads :
      (ms : List Model.Message)
      → entries ms ≡ l
      → Leads
          (λ (p : Process S). Good p.outside)
          (pure ms)
          (λ ms p. Listed ms p.outside)
          (λ p. Good p.outside)
  pure-Leads ms e = record { at = λ p h. (e, h) }

  from_db-Leads :
      Leads
        (λ (p : Process S). Good p.outside)
        (list_from_db env session_id)
        (λ ms p. Listed ms p.outside)
        (λ p. Good p.outside)
  unfolding list_from_db
  from_db-Leads = Leads-then _ _ (add-Leads Good _ _) (λ _.
      Leads-bind _ _ (call-Leads _ list-Leads) (λ ms. Leads-given _ (λ e.
        Leads-then _ _ (Leads-ignore _ (call-Leads _ (set-Leads ms e))) (λ _. pure-Leads ms e))))

  cached_or_db-Leads :
      (v : Option (List Model.Message))
      → Leads
          (λ (p : Process S). Found v p.outside)
          (cached_or_db env session_id v)
          (λ ms p. Listed ms p.outside)
          (λ p. Good p.outside)
  unfolding cached_or_db
  cached_or_db-Leads none = from_db-Leads
  cached_or_db-Leads (some ms) =
      Leads-then _ _ (add-Leads (Listed ms) _ _) (λ _. record { at = λ s h. h })

  pub check_ids-Leads :
      (user_id : Text)
      → Leads
          (λ (p : Process S). Good p.outside)
          (check_ids env user_id session_id)
          (λ _ p. Good p.outside)
          (λ p. Good p.outside)
  unfolding check_ids
  check_ids-Leads user_id = Keeps-Leads _ (search keeps_rules)

  pub check_session-Leads :
      (user_id : Text)
      → Leads
          (λ (p : Process S). Good p.outside)
          (check_session env user_id session_id)
          (λ _ p. Good p.outside)
          (λ p. Good p.outside)
  unfolding check_session Session.get_by_id_and_user_id
  check_session-Leads user_id =
      Leads-on_error _ _ _
        (call-Leads _ (Keeps-Leads _ (Shows-Keeps _ (λ c. views.session_first _ l c))))
        (λ e. record { at = λ s h. h }) (λ a. record { at = λ s h. h })

  pub list_messages-Leads :
      (user_id : Text)
      → Leads
          (λ (p : Process S). Good p.outside)
          (list_messages env user_id session_id)
          (λ ms p. Listed ms p.outside)
          (λ p. Good p.outside)
  unfolding list_messages
  list_messages-Leads user_id = Leads-then _ _ (check_ids-Leads user_id) (λ _.
      Leads-then _ _ (check_session-Leads user_id) (λ _.
        Leads-on_error _ _ _ (call-Leads _ get-Leads)
          (λ e. Leads-then _ _ (add-Leads Good _ _) (λ _. from_db-Leads)) cached_or_db-Leads))
