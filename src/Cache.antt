-- ===== src/Cache.antt =====
-- internal/cache: the message caches and the rate limiter over Redis, which is a parameter.
pub mod Message
pub mod Page
pub mod RateLimit
use go_agent_chat_server.Base.{ℕ, List, Option}
use go_agent_chat_server.Base.Text.{Text}
use go_agent_chat_server.Base.Exec.{Exec, Result}
use go_agent_chat_server.Model

pub record Redis (S : Type 0) : Type 0 where
  -- RDB.Get: `none` is redis.Nil
  pub get : Text → Exec S (Option Text)
  -- RDB.Set with a time to live in milliseconds
  pub set : Text → Text → ℕ → Exec S (Unit {0})
  -- RDB.Del of some keys
  pub del : List Text → Exec S (Unit {0})
  -- RDB.Scan from a cursor by a pattern: some keys and the next cursor
  pub scan : ℕ → Text → Exec S (List Text × ℕ)
  -- The script: INCR the key, and on 1 let it expire after so many milliseconds.
  pub incr_window : Text → ℕ → Exec S ℕ

-- encoding/json at the types that the caches hold.
pub record Json : Type 0 where
  pub marshal_messages : List Model.Message → Result Text
  pub unmarshal_messages : Text → Result (List Model.Message)
  pub marshal_page : List Model.Message × ℕ → Result Text
  pub unmarshal_page : Text → Result (List Model.Message × ℕ)
