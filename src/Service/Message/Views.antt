-- ===== src/Service/Message/Views.antt =====
-- internal/service/message_service.go and internal/cache/message_cache.go: the cached list of a
-- session's messages against the database.
use go_agent_chat_server.Base.{
  ℕ, List, [], ◌∷◌, ◌++◌, map, Option, none, some, ◌≡◌, ◌⊎◌, if◌then◌else◌,
}
use mathlib.Core.Bool.{Bool}
use go_agent_chat_server.Base.Int.{pos}
use go_agent_chat_server.Base.Text.{Text, codes, is_empty}
use go_agent_chat_server.Base.Exec.{ok}
use go_agent_chat_server.Base.Exec.Keeps.{Keeps}
use go_agent_chat_server.Base.Exec.Leads.{Leads}
use go_agent_chat_server.Model
use go_agent_chat_server.Store.{created_at_asc}
use go_agent_chat_server.Store.Message.{of_session}
use go_agent_chat_server.Cache.Message.{message_cache_key}
use go_agent_chat_server.Service.{Env}
use go_agent_chat_server.Service.Message.{new_message}

-- What a message says; the database adds its times.
pub record Entry : Type 0 where
  pub id : Text
  pub role : Text
  pub content : Text

abbrev pub entry : Model.Message → Entry
entry m = record { id = m.id; role = m.role; content = m.content }

abbrev pub entries : List Model.Message → List Entry
entries = map entry

abbrev pub role_or_user : Text → Text
unfolding codes
role_or_user role = if is_empty role then codes "user" else role

-- The row that CreateMessage writes, under some identifier.
abbrev pub Written : {S : Type 0} → Env S → Text → Text → Text → Model.Message → Type 0
Written env session_id role content m =
    (id : Text) × (m ≡ new_message env id session_id (role_or_user role) content)

-- `Has l c s`: the database lists the messages `l` of the session, and Redis holds `c` under its
-- key. The laws say what the calls of the message service do to both.
pub record Views {S : Type 0} (env : Env S) (session_id : Text)
    (Has : List Entry → Option Text → S → Type 0) : Type 0 where
  pub session_first :
      (rows : Model.Session → Bool) (l : List Entry) (c : Option Text)
      → Keeps (Has l c) (env.db.sessions.first rows)
  pub new_id : (l : List Entry) (c : Option Text) → Keeps (Has l c) env.new_id
  pub message_create :
      (row : Model.Message) (l : List Entry) (c : Option Text)
      → row.session_id ≡ session_id
      → Leads
          (Has l c)
          (env.db.messages.create row)
          (λ _ s. Has (l ++ entry row ∷ []) c s)
          (Has l c)
  pub message_find :
      (l : List Entry) (c : Option Text)
      → Leads
          (Has l c)
          (env.db.messages.find (record {
            where_row = of_session session_id;
            order = created_at_asc;
            offset = pos 0;
            limit = none;
          }))
          (λ ms s. (entries ms ≡ l) × Has l c s)
          (Has l c)
  -- A key may have expired.
  pub redis_get :
      (l : List Entry) (c : Option Text)
      → Leads
          (Has l c)
          (env.redis.get (message_cache_key session_id))
          (λ v s. ((v ≡ c) ⊎ (v ≡ none)) × Has l c s)
          (Has l c)
  -- A write that fails may have been made.
  pub redis_set :
      (value : Text) (ttl : ℕ) (l : List Entry) (c : Option Text)
      → Leads
          (Has l c)
          (env.redis.set (message_cache_key session_id) value ttl)
          (λ _ s. Has l (some value) s)
          (λ s. Has l c s ⊎ Has l (some value) s)
  -- A deletion is made.
  pub redis_del :
      (l : List Entry) (c : Option Text) (s : S)
      → Has l c s
      → Has l none (env.redis.del (message_cache_key session_id ∷ []) s).1
  pub redis_del_others :
      (keys : List Text) (l : List Entry) → Keeps (Has l none) (env.redis.del keys)
  pub redis_scan :
      (cursor : ℕ) (pattern : Text) (l : List Entry) (c : Option Text)
      → Keeps (Has l c) (env.redis.scan cursor pattern)
  pub unmarshal_marshal :
      (ms : List Model.Message) (value : Text)
      → env.json.marshal_messages ms ≡ ok value
      → env.json.unmarshal_messages value ≡ ok ms

module _ {S : Type 0} (env : Env S) (Has : List Entry → Option Text → S → Type 0) where
  -- A cached text is that of the messages `l`.
  abbrev pub Agrees : Option Text → List Entry → Type 0
  Agrees none l = Unit {0}
  Agrees (some value) l =
      (ms : List Model.Message) × (env.json.unmarshal_messages value ≡ ok ms) × (entries ms ≡ l)

  -- The session's messages are `l`, and the cache holds nothing else.
  pub record Shows (l : List Entry) (s : S) : Type 0 where
    pub cached : Option Text
    pub held : Has l cached s
    pub agrees : Agrees cached l
