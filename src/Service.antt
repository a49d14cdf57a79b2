-- ===== src/Service.antt =====
-- internal/service: what the services call outside the process, and the services.
pub mod Message
pub mod Chat
pub mod Session
pub mod Knowledge
pub mod Auth
pub mod AsyncChat
use go_agent_chat_server.Base.{ℕ}
use go_agent_chat_server.Base.Text.{Text}
use go_agent_chat_server.Base.Exec.{Exec, ok}
use go_agent_chat_server.Store.{Database}
use go_agent_chat_server.Cache.{Redis, Json}

-- The database, the cache, JSON and the identifiers of idgen.NewID (which Idgen models), with the
-- rounds that a deletion of cached pages may take.
pub record Env (S : Type 0) : Type 0 where
  pub db : Database S
  pub redis : Redis S
  pub json : Json
  pub new_id : S → Text × S
  pub scan_rounds : ℕ

unfoldable pub fresh_id : {S : Type 0} → Env S → Exec S Text
fresh_id env s = let (id, s') = env.new_id s in (ok id, s')
