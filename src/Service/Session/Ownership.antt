-- ===== src/Service/Session/Ownership.antt =====
-- internal/service/session_service.go and internal/store/session_repo.go: the rows that a user's
-- calls reach.
use go_agent_chat_server.Base.{List, ◌≡◌, Bool, true}
use go_agent_chat_server.Base.Text.{Text, text_eq}
use go_agent_chat_server.Base.Exec.{Exec}
use go_agent_chat_server.Base.Exec.Keeps.{Keeps}
use go_agent_chat_server.Base.Exec.Leads.{Leads}
use go_agent_chat_server.Model
use go_agent_chat_server.Store.Session
use go_agent_chat_server.Cache.Message
use go_agent_chat_server.Service.{Env}

-- `Kept` is left alone by the calls that reach no rows but those of the user: by searches, whose row
-- meets their condition; by updates and deletions of rows of the user, and deletions of the messages
-- of a session of the user, where the conditions say so; by a transaction of such calls; and by
-- deletions in Redis.
pub record Spares {S : Type 0} (env : Env S) (user_id : Text) (Kept : S → Type 0) : Type 0 where
  pub first :
      (rows : Model.Session → Bool)
      → Leads Kept (env.db.sessions.first rows) (λ row s. (rows row ≡ true) × Kept s) Kept
  pub update :
      (rows : Model.Session → Bool) (change : Model.Session → Model.Session)
      → ((row : Model.Session) → rows row ≡ true → row.user_id ≡ user_id)
      → ((row : Model.Session) → (change row).user_id ≡ row.user_id)
      → Keeps Kept (env.db.sessions.update rows change)
  pub delete :
      (rows : Model.Session → Bool)
      → ((row : Model.Session) → rows row ≡ true → row.user_id ≡ user_id)
      → Keeps Kept (env.db.sessions.delete rows)
  pub delete_messages :
      (session : Model.Session)
      → session.user_id ≡ user_id
      → Keeps Kept (env.db.messages.delete (λ row. text_eq row.session_id session.id))
  pub transaction : (m : Exec S (Unit {0})) → Keeps Kept m → Keeps Kept (env.db.transaction m)
  pub redis_del : (keys : List Text) → Keeps Kept (env.redis.del keys)
