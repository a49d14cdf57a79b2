-- ===== src/Api/Coze/Handlers.antt =====
-- internal/api/coze.go: the handlers. The publisher of events is a parameter.
use go_agent_chat_server.Base.{
  Bool, true, List, [], ◌∷◌, ◌++◌, length, Option, none, some, if◌then◌else◌,
}
use go_agent_chat_server.Base.Text.{Text, codes, is_empty, text_eq, trim_space}
use go_agent_chat_server.Base.Int.{ℤ, pos_part}
use go_agent_chat_server.Base.Exec.{Exec, Result, pure, ◌>>=◌}
use go_agent_chat_server.Model
use go_agent_chat_server.Metrics.{Process, call}
use go_agent_chat_server.Queue.Event.{Event, Value, text, number}
use go_agent_chat_server.Api.Code
use go_agent_chat_server.Api.Coze.{
  CozeCampusAskRequest, CozeSource, resolve_user_id, normalize_top_k, build_coze_sources,
  build_coze_context, build_coze_system_prompt, should_coze_need_web,
}
use go_agent_chat_server.Api.Knowledge.{write_chat_error}
use go_agent_chat_server.Api.Response.{
  Handler, answer, error, serve, reply, bind_and_validate, reply_success,
}
use go_agent_chat_server.Service.{Env}
use go_agent_chat_server.Service.Knowledge
use go_agent_chat_server.Service.Chat.{ChatEnv, ChatService}
use go_agent_chat_server.Service.Chat.Answers.{chat_with_extra_context, chat_completion}

pub record CozeCampusSearchRequest : Type 0 where
  pub user_id : Text
  pub coze_user_id : Text
  pub query : Text
  pub intent : Text
  pub top_k : ℤ

pub record CozeEventRequest : Type 0 where
  pub type : Text
  pub user_id : Text
  pub coze_user_id : Text
  pub session_id : Text
  -- none for nil
  pub payload : Option (List (Text × Value))

-- The publisher is never nil.
pub record CozeHandler (S : Type 0) : Type 0 where
  pub publish : Event → Exec (Process S) (Unit {0})
  pub default_user_id : Text

unfoldable pub new_coze_handler :
    {S : Type 0} → (Event → Exec (Process S) (Unit {0})) → Text → CozeHandler S
unfolding codes trim_space
new_coze_handler publish default_user_id = record {
  publish = publish;
  default_user_id =
      if is_empty (trim_space default_user_id) then codes "coze-default-user" else default_user_id;
}

-- The maps that CampusSearch and CampusAsk answer with; a search has no answer and no session.
pub record CozeResult : Type 0 where
  pub query : Text
  pub intent : Text
  pub coze_user_id : Text
  pub user_id : Text
  pub need_web : Bool
  pub sources : List CozeSource
  pub matched_docs : List Model.KnowledgeDoc

pub record CozeAnswer : Type 0 where
  pub found : CozeResult
  pub answer : Text
  pub session_id : Text

pub record Published : Type 0 where
  pub published : Bool
  pub event_id : Text

unfoldable pub coze_result : Text → Text → Text → Text → List Model.KnowledgeDoc → CozeResult
unfolding should_coze_need_web build_coze_sources
coze_result query intent coze_user_id user_id docs = record {
  query = query;
  intent = intent;
  coze_user_id = coze_user_id;
  user_id = user_id;
  need_web = should_coze_need_web query intent docs;
  sources = build_coze_sources docs;
  matched_docs = docs;
}

-- payload[key] = value
unfoldable pub assign : Text → Value → List (Text × Value) → List (Text × Value)
unfolding text_eq
assign key value [] = (key, value) ∷ []
assign key value ((k, v) ∷ rest) =
    let assigned = assign key value rest in
    if text_eq k key then (key, value) ∷ rest else (k, v) ∷ assigned

unfoldable pub payload_or_empty : Option (List (Text × Value)) → List (Text × Value)
payload_or_empty none = []
payload_or_empty (some payload) = payload

-- The messages of a question without a session.
unfoldable pub coze_messages : Text → Text → List Model.Message
unfolding codes build_coze_system_prompt
coze_messages extra_context query =
    record {
      id = [];
      session_id = [];
      role = codes "system";
      content = build_coze_system_prompt extra_context;
      created_at = 0;
      updated_at = 0;
    }
    ∷ record {
      id = [];
      session_id = [];
      role = codes "user";
      content = query;
      created_at = 0;
      updated_at = 0;
    }
    ∷ []

module _ {S : Type 0} (env : Env S) (h : CozeHandler S) where
  -- The event of a handler, with a fresh identifier.
  unfoldable pub coze_event : Text → Text → Text → List (Text × Value) → S → Event × S
  coze_event event_type user_id session_id payload s =
      let (id, t) = env.new_id s in
      (
        record {
          id = id;
          type = event_type;
          user_id = user_id;
          session_id = session_id;
          created_at = env.db.now t;
          payload = payload;
        },
        t,
      )

  -- The publication runs in a goroutine of its own, which drops its error.
  unfoldable pub publish_coze_event :
      Text → Text → Text → List (Text × Value) → Process S → Process S
  unfolding coze_event
  publish_coze_event event_type user_id session_id payload p =
      let (event, s) = coze_event event_type user_id session_id payload p.outside in
      record p { outside = s; publishing = p.publishing ++ event ∷ [] }

  unfoldable pub campus_search : Result CozeCampusSearchRequest → Handler S CozeResult
  unfolding codes trim_space answer error reply_success bind_and_validate normalize_top_k
      resolve_user_id coze_result Knowledge.search_docs
  campus_search req = bind_and_validate req λ req.
      let query = trim_space req.query in
      let user_id = resolve_user_id h.default_user_id req.user_id in
      if is_empty query
      then reply (answer 400 (error Code.invalid_request (codes "query is required")))
      else serve (call (Knowledge.search_docs env user_id query (normalize_top_k req.top_k)))
          (λ _. answer 500 (error Code.internal (codes "search campus knowledge failed")))
          (λ docs. reply_success (coze_result query req.intent req.coze_user_id user_id docs))

  unfoldable pub event : Result CozeEventRequest → Handler S Published
  unfolding codes trim_space answer error reply_success bind_and_validate resolve_user_id assign
      payload_or_empty coze_event
  event req = bind_and_validate req λ req.
      let trimmed = trim_space req.type in
      let event_type = if is_empty trimmed then codes "coze.event" else trimmed in
      let payload =
        assign (codes "coze_user_id") (text req.coze_user_id) (payload_or_empty req.payload) in
      λ p.
        let (event, t) =
          coze_event event_type (resolve_user_id h.default_user_id req.user_id) req.session_id
            payload p.outside in
        serve (h.publish event)
          (λ _. answer 500 (error Code.internal (codes "publish coze event failed")))
          (λ _. reply_success (record { published = true; event_id = event.id }))
          (record p { outside = t })

module _ {S M : Type 0} (o : ChatEnv S M) (s : ChatService) (h : CozeHandler S) where
  -- The model's call: with the history of a session, or on its own. The result is the answer and the
  -- session.
  unfoldable pub ask_model :
      CozeCampusAskRequest → Text → Text → Text → Exec (Process S) (Text × Text)
  unfolding trim_space coze_messages chat_with_extra_context chat_completion
  ask_model req user_id query extra_context =
      if is_empty (trim_space req.session_id)
      then (do
        answer ← chat_completion o s user_id req.model (coze_messages extra_context query)
        pure (answer, []))
      else (do
        result ← chat_with_extra_context o s user_id req.session_id req.model query extra_context
        pure (result.answer, result.session_id))

  unfoldable pub ask_payload :
      CozeCampusAskRequest → Text → List Model.KnowledgeDoc → Text → List (Text × Value)
  unfolding codes normalize_top_k
  ask_payload req query docs answer =
      (codes "coze_user_id", text req.coze_user_id)
      ∷ (codes "query", text query)
      ∷ (codes "intent", text req.intent)
      ∷ (codes "top_k", number (pos_part (normalize_top_k req.top_k)))
      ∷ (codes "source_count", number (length docs))
      ∷ (codes "answer_length", number (length answer))
      ∷ (codes "metadata", req.metadata)
      ∷ []

  -- Behind the model's call.
  unfoldable pub reply_asked :
      CozeCampusAskRequest
      → Text
      → Text
      → List Model.KnowledgeDoc
      → Text × Text
      → Handler S CozeAnswer
  unfolding codes publish_coze_event ask_payload coze_result reply_success
  reply_asked req user_id query docs (answer, session_id) p =
      reply_success
        (record {
          found = coze_result query req.intent req.coze_user_id user_id docs;
          answer = answer;
          session_id = session_id;
        })
        (publish_coze_event o.env h (codes "coze.campus.ask.completed") user_id session_id
          (ask_payload req query docs answer) p)

  unfoldable pub campus_ask : Result CozeCampusAskRequest → Handler S CozeAnswer
  unfolding codes trim_space answer error bind_and_validate normalize_top_k resolve_user_id
      build_coze_context Knowledge.search_docs ask_model write_chat_error reply_asked
  campus_ask req = bind_and_validate req λ req.
      let query = trim_space req.query in
      let user_id = resolve_user_id h.default_user_id req.user_id in
      if is_empty query
      then reply (answer 400 (error Code.invalid_request (codes "query is required")))
      else serve (call (Knowledge.search_docs o.env user_id query (normalize_top_k req.top_k)))
          (λ _. answer 500 (error Code.internal (codes "search campus knowledge failed")))
          λ docs.
            serve (ask_model req user_id query (build_coze_context req docs)) write_chat_error
              (reply_asked req user_id query docs)
