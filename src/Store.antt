-- ===== src/Store.antt =====
-- internal/store: the repositories. The database is a parameter: for each table the calls of gorm
-- that the program makes, over a state `S` of everything outside the process.
pub mod Session
pub mod Message
pub mod ChatJob
pub mod Knowledge
pub mod User
use go_agent_chat_server.Base.{ℕ, Bool, List, Option}
use go_agent_chat_server.Base.Text.{Text}
use go_agent_chat_server.Base.Int.{ℤ}
use go_agent_chat_server.Base.Exec.{Exec}
use go_agent_chat_server.Model

-- Where(…).Order(…).Offset(…).Limit(…)
pub data Order : Type 0 where
  unordered created_at_asc created_at_desc : Order

pub record Query (R : Type 0) : Type 0 where
  pub where_row : R → Bool
  pub order : Order
  -- An offset below 1 is none.
  pub offset : ℤ
  pub limit : Option ℕ

pub record Table (S R : Type 0) : Type 0 where
  -- db.Create
  pub create : R → Exec S (Unit {0})
  -- db.Where(…).First, whose error on no row is `record_not_found`
  pub first : (R → Bool) → Exec S R
  -- db.Where(…)….Find
  pub find : Query R → Exec S (List R)
  -- db.Where(…).Count
  pub count : (R → Bool) → Exec S ℕ
  -- db.Where(…).Update(s): the rows affected
  pub update : (R → Bool) → (R → R) → Exec S ℕ
  -- db.Where(…).Delete: the rows affected
  pub delete : (R → Bool) → Exec S ℕ

pub record Database (S : Type 0) : Type 0 where
  pub users : Table S Model.User
  pub sessions : Table S Model.Session
  pub messages : Table S Model.Message
  pub docs : Table S Model.KnowledgeDoc
  pub jobs : Table S Model.ChatJob
  -- db.Transaction
  pub transaction : Exec S (Unit {0}) → Exec S (Unit {0})
  -- column LIKE pattern
  pub like : Text → Text → Bool
  -- time.Now()
  pub now : S → ℕ
