-- ===== src/Service/Chat/Conversation.antt =====
-- internal/service/chat_service.go: what a chat adds to its session.
use go_agent_chat_server.Base.{ℕ, List, [], ◌∷◌, ◌++◌, Option, ◌≡◌, refl, ◌⊎◌, inl, inr}
use go_agent_chat_server.Base.Text.{Text, codes}
use go_agent_chat_server.Base.Int.{ℤ}
use go_agent_chat_server.Base.Exec.{Exec, Result, ok, err, pure, ◌>>◌}
use go_agent_chat_server.Base.Exec.Keeps.{Keeps, keeps_rules}
use go_agent_chat_server.Base.Exec.Leads.{
  Ends, Leads, Leads-bind, Leads-then, Leads-given, Leads-map, Keeps-Leads,
}
use go_agent_chat_server.Model
use go_agent_chat_server.Metrics.{Process, add}
use go_agent_chat_server.Cache.RateLimit.{allow_user_llm_call}
use go_agent_chat_server.Service.Message.{create_message, list_messages}
use go_agent_chat_server.Service.Message.Views.{Entry, entry, Written, Views, Shows}
use go_agent_chat_server.Service.Message.Coherence.{Shows-Keeps, list_messages-Leads}
use go_agent_chat_server.Service.Message.Creation.{create_message-Leads}
use go_agent_chat_server.Service.Chat.{ChatEnv, ChatService, ChatResult}
use go_agent_chat_server.Service.Chat.Limits.{
  release, free_slot, acquire_llm, and_release, check_user_llm_rate_limit,
}
use go_agent_chat_server.Service.Chat.Tools.{inject_system_context, publish_chat_event}
use go_agent_chat_server.Service.Chat.Answers.{
  answer_and_store, answer_from_history, chat_with_context, counted, check_request,
}
use go_agent_chat_server.Service.Chat.Models.{chat_model}
use go_agent_chat_server.Service.Chat.Frame.{Calm, Outside, outside_rules}
use go_agent_chat_server.Service.Chat.Frame.Answers.{
  chat_model-Outside, counted-Outside, acquire_llm-Outside, inject_system_context-Outside,
  check_request-Outside,
}

module _ {S A : Type 0} {J : S → Type 0} where
  still :
      (m : Exec (Process S) A)
      → Keeps (Outside J) m
      → Leads (λ (p : Process S). J p.outside) m (λ _ p. J p.outside) (λ p. J p.outside)
  still m km =
      let kept : Keeps (λ (p : Process S). J p.outside) m = record {
        at = λ p h. (km.at p (record { held = h })).held;
      } in
      Keeps-Leads m kept

module _ {S M A : Type 0} (o : ChatEnv S M) (c : ChatService) (Q : A → S → Type 0)
    (E : S → Type 0) where
  released-Ends :
      (r : Result A × Process S)
      → Ends (λ a (p : Process S). Q a p.outside) (λ p. E p.outside) r
      → Ends (λ a (p : Process S). Q a p.outside) (λ p. E p.outside) (r.0, (release o c r.1).1)
  unfolding release free_slot add
  released-Ends (ok a, p) h = h
  released-Ends (err e, p) h = h

module _ {S M A : Type 0} (o : ChatEnv S M) (c : ChatService) (P : S → Type 0) (Q : A → S → Type 0)
    (E : S → Type 0) where
  and_release-Leads :
      (m : Exec (Process S) A)
      → Leads (λ (p : Process S). P p.outside) m (λ a p. Q a p.outside) (λ p. E p.outside)
      → Leads
          (λ (p : Process S). P p.outside)
          (and_release o c m)
          (λ a p. Q a p.outside)
          (λ p. E p.outside)
  unfolding and_release
  and_release-Leads m km = record { at = λ p h. released-Ends o c Q E (m p) (km.at p h) }

module _ {S M : Type 0} (o : ChatEnv S M) (session_id : Text)
    (Has : List Entry → Option Text → S → Type 0) where
  -- The answer is the last message, under the identifier that is returned.
  abbrev pub Replied : List Entry → ChatResult → S → Type 0
  Replied l r s =
      (m : Model.Message) × Written o.env session_id (codes "assistant") r.answer m
      × (m.id ≡ r.assistant_message_id)
      × Shows o.env Has (l ++ entry m ∷ []) s

  -- The question and then the answer.
  abbrev pub Conversed : List Entry → Text → ChatResult → S → Type 0
  Conversed l user_message r s =
      (q : Model.Message) × Written o.env session_id (codes "user") user_message q
      × Replied (l ++ entry q ∷ []) r s

  -- Nothing, or the question.
  abbrev pub Stopped : List Entry → Text → S → Type 0
  Stopped l user_message s =
      Shows o.env Has l s
      ⊎ ((q : Model.Message) × Written o.env session_id (codes "user") user_message q
          × Shows o.env Has (l ++ entry q ∷ []) s)

-- Beside the laws of the message service: the calls that read, the model and the waits, and the rate
-- limiter leave the session's messages and their cached list alone.
module _ {S M : Type 0} (o : ChatEnv S M) (c : ChatService) (session_id : Text)
    (Has : List Entry → Option Text → S → Type 0) (views : Views o.env session_id Has)
    (calm : (l : List Entry) (t : Option Text) → Calm o (Has l t))
    (limiter : (l : List Entry) (t : Option Text) (user_id : Text) (window : ℕ)
      → Keeps
          (Has l t)
          (o.env.redis.incr_window (codes "rate_limit:llm:user:" ++ user_id) window)) where
  good-Calm : (l : List Entry) → Calm o (Shows o.env Has l)
  good-Calm l = record {
    session_first =
        λ rows. Shows-Keeps o.env session_id Has views l _ (λ t. (calm l t).session_first rows);
    message_find =
        λ query. Shows-Keeps o.env session_id Has views l _ (λ t. (calm l t).message_find query);
    new_id = Shows-Keeps o.env session_id Has views l _ (λ t. (calm l t).new_id);
    new_chat_model = λ url name.
        Shows-Keeps o.env session_id Has views l _ (λ t. (calm l t).new_chat_model url name);
    generate = λ m ms. Shows-Keeps o.env session_id Has views l _ (λ t. (calm l t).generate m ms);
    slot_or_done = Shows-Keeps o.env session_id Has views l _ (λ t. (calm l t).slot_or_done);
    done = Shows-Keeps o.env session_id Has views l _ (λ t. (calm l t).done);
    timer = λ ms. Shows-Keeps o.env session_id Has views l _ (λ t. (calm l t).timer ms);
  }

  returned-Leads :
      (l : List Entry) (event_type user_id model_name user_message answer : Text)
      (m : Model.Message)
      → Written o.env session_id (codes "assistant") answer m
      → Leads
          (λ (p : Process S). Shows o.env Has (l ++ entry m ∷ []) p.outside)
          (publish_chat_event o c event_type user_id session_id model_name user_message answer m.id
            >> pure (record {
              session_id = session_id;
              model = model_name;
              answer = answer;
              assistant_message_id = m.id;
            }))
          (λ r p. Replied o session_id Has l r p.outside)
          (λ p. Shows o.env Has l p.outside)
  unfolding publish_chat_event
  returned-Leads l event_type user_id model_name user_message answer m w = record {
    at = λ p h. (m, w, refl, (good-Calm (l ++ entry m ∷ [])).new_id.at p.outside h);
  }

  answer_and_store-Leads :
      (l : List Entry) (event_type user_id model_name user_message : Text)
      (messages : List Model.Message)
      → Leads
          (λ (p : Process S). Shows o.env Has l p.outside)
          (answer_and_store o c event_type user_id session_id model_name user_message messages)
          (λ r p. Replied o session_id Has l r p.outside)
          (λ p. Shows o.env Has l p.outside)
  unfolding answer_and_store
  answer_and_store-Leads l event_type user_id model_name user_message messages =
      Leads-bind (counted o c (chat_model o c model_name messages)) _
        (still _ (
          counted-Outside o c (good-Calm l) _
            (chat_model-Outside o c (good-Calm l) model_name messages)))
        (λ answer.
          Leads-bind (create_message o.env user_id session_id (codes "assistant") answer) _
            (create_message-Leads o.env session_id Has views l user_id (codes "assistant") answer)
            (λ m.
              Leads-given _ (returned-Leads l event_type user_id model_name user_message answer m)))

  answer_from_history-Leads :
      (l : List Entry) (event_type user_id model_name user_message extra_context : Text)
      → Leads
          (λ (p : Process S). Shows o.env Has l p.outside)
          (answer_from_history o c event_type user_id session_id model_name user_message
            extra_context)
          (λ r p. Replied o session_id Has l r p.outside)
          (λ p. Shows o.env Has l p.outside)
  unfolding answer_from_history
  answer_from_history-Leads l event_type user_id model_name user_message extra_context =
      Leads-bind (list_messages o.env user_id session_id) _
        (list_messages-Leads o.env session_id Has views l user_id)
        (λ listed. Leads-given _ (λ _.
          Leads-bind
            (inject_system_context o c user_id session_id user_message extra_context listed) _
            (still _ (
              inject_system_context-Outside o c (good-Calm l) user_id session_id user_message
                extra_context listed))
            (λ messages.
              Leads-then (acquire_llm o c) _ (still _ (acquire_llm-Outside o c (good-Calm l))) (λ _.
                and_release-Leads o c (Shows o.env Has l) (Replied o session_id Has l)
                  (Shows o.env Has l) _
                  (answer_and_store-Leads l event_type user_id model_name user_message messages)))))

  allow_user_llm_call-Keeps :
      (l : List Entry) (user_id : Text) (max_requests window : ℤ)
      → Keeps (Shows o.env Has l) (allow_user_llm_call o.env.redis user_id max_requests window)
  unfolding allow_user_llm_call codes
  allow_user_llm_call-Keeps l user_id max_requests window =
      let counted : (w : ℕ)
          → Keeps (Shows o.env Has l)
              (o.env.redis.incr_window (codes "rate_limit:llm:user:" ++ user_id) w) =
        λ w. Shows-Keeps o.env session_id Has views l _ (λ t. limiter l t user_id w) in
      search (keeps_rules, counted) depth 16

  rate_limit-Outside :
      (l : List Entry) (user_id : Text)
      → Keeps (Outside (Shows o.env Has l)) (check_user_llm_rate_limit o c user_id)
  unfolding check_user_llm_rate_limit
  rate_limit-Outside l user_id = search (outside_rules, allow_user_llm_call-Keeps) depth 16

  unchanged :
      {A : Type 0} (l : List Entry) (user_message : Text) (m : Exec (Process S) A)
      → Keeps (Outside (Shows o.env Has l)) m
      → Leads
          (λ (p : Process S). Shows o.env Has l p.outside)
          m
          (λ _ p. Shows o.env Has l p.outside)
          (λ p. Stopped o session_id Has l user_message p.outside)
  unchanged l user_message m km = Leads-map m (still m km) (λ _ p h. h) (λ p h. inl h)

  asked-Leads :
      (l : List Entry) (user_id model_name user_message extra_context : Text) (q : Model.Message)
      → Written o.env session_id (codes "user") user_message q
      → Leads
          (λ (p : Process S). Shows o.env Has (l ++ entry q ∷ []) p.outside)
          (answer_from_history o c
            (codes "chat.completed")
            user_id
            session_id
            model_name
            user_message
            extra_context)
          (λ r p. Conversed o session_id Has l user_message r p.outside)
          (λ p. Stopped o session_id Has l user_message p.outside)
  asked-Leads l user_id model_name user_message extra_context q w =
      Leads-map _
        (answer_from_history-Leads (l ++ entry q ∷ []) (codes "chat.completed") user_id model_name
          user_message extra_context)
        (λ r p h. (q, w, h)) (λ p h. inr (q, w, h))

  chat_with_context-Leads :
      (l : List Entry) (user_id model_name user_message extra_context : Text)
      → Leads
          (λ (p : Process S). Shows o.env Has l p.outside)
          (chat_with_context o c user_id session_id model_name user_message extra_context)
          (λ r p. Conversed o session_id Has l user_message r p.outside)
          (λ p. Stopped o session_id Has l user_message p.outside)
  unfolding chat_with_context
  chat_with_context-Leads l user_id model_name user_message extra_context =
      Leads-then (check_request o c user_id session_id user_message) _
        (unchanged l user_message _
          (check_request-Outside o c (good-Calm l) user_id session_id user_message))
        (λ _.
          Leads-then (check_user_llm_rate_limit o c user_id) _
            (unchanged l user_message _ (rate_limit-Outside l user_id))
            (λ _.
              Leads-bind (create_message o.env user_id session_id (codes "user") user_message) _
                (Leads-map _
                  (create_message-Leads o.env session_id Has views l user_id (codes "user")
                    user_message)
                  (λ m p h. h) (λ p h. inl h))
                (λ q.
                  Leads-given _ (asked-Leads l user_id model_name user_message extra_context q))))

  -- A chat that returns an answer adds two messages at the end of its session, in this order: the
  -- question, and the very answer that it returns, under the identifier that it returns. A chat that
  -- ends with an error adds nothing or the question alone. Either way the cached list is no other
  -- than the session's. It holds from every state whose cache is coherent, and where the calls
  -- outside keep `Views`, and those that read, ask the model, wait or count for the limiter of
  -- users leave the session's messages and their cached list alone.
  pub chat_with_context-Conversed :
      (l : List Entry) (user_id model_name user_message extra_context : Text) (p : Process S)
      → Shows o.env Has l p.outside
      → Ends
          (λ r q. Conversed o session_id Has l user_message r q.outside)
          (λ q. Stopped o session_id Has l user_message q.outside)
          (chat_with_context o c user_id session_id model_name user_message extra_context p)
  chat_with_context-Conversed l user_id model_name user_message extra_context p h =
      (chat_with_context-Leads l user_id model_name user_message extra_context).at p h
