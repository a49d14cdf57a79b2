-- ===== src/Model.antt =====
-- internal/model: the rows of the tables. A time is its number of nanoseconds, 0 for the zero time
-- and for a NULL column.
use go_agent_chat_server.Base.{ℕ}
use go_agent_chat_server.Base.Text.{Text}

pub record User : Type 0 where
  pub id : Text
  pub username : Text
  pub password_hash : Text
  pub created_at : ℕ
  pub updated_at : ℕ

pub record Session : Type 0 where
  pub id : Text
  pub user_id : Text
  pub title : Text
  pub created_at : ℕ
  pub updated_at : ℕ

pub record Message : Type 0 where
  pub id : Text
  pub session_id : Text
  pub role : Text
  pub content : Text
  pub created_at : ℕ
  pub updated_at : ℕ

pub record KnowledgeDoc : Type 0 where
  pub id : Text
  pub user_id : Text
  pub title : Text
  pub content : Text
  pub created_at : ℕ
  pub updated_at : ℕ

-- The four texts that the program writes into the column `status`.
pub data ChatJobStatus : Type 0 where
  pending running success failed : ChatJobStatus

pub record ChatJob : Type 0 where
  pub id : Text
  pub user_id : Text
  pub session_id : Text
  pub model : Text
  pub status : ChatJobStatus
  pub request_text : Text
  pub user_message_id : Text
  pub answer_text : Text
  pub error_message : Text
  pub retry_count : ℕ
  pub assistant_message_id : Text
  pub started_at : ℕ
  pub finished_at : ℕ
  pub created_at : ℕ
  pub updated_at : ℕ
