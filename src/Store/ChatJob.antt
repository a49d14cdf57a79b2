-- ===== src/Store/ChatJob.antt =====
-- internal/store/chat_job_repo.go
use go_agent_chat_server.Base.{ℕ, Bool, ◌&&◌, []}
use go_agent_chat_server.Base.Text.{Text, text_eq}
use go_agent_chat_server.Base.Exec.{Exec, pure, ◌>>◌}
use go_agent_chat_server.Model
use go_agent_chat_server.Model.{pending, running, success, failed}
use go_agent_chat_server.Store.{Database}

-- id = ?
abbrev pub has_id : Text → Model.ChatJob → Bool
has_id id row = text_eq row.id id

module _ {S : Type 0} (db : Database S) where
  unfoldable pub create : Model.ChatJob → Exec S (Unit {0})
  create job = db.jobs.create job

  unfoldable pub get_by_id : Text → Exec S Model.ChatJob
  get_by_id id = db.jobs.first (has_id id)

  unfoldable pub get_by_id_and_user_id : Text → Text → Exec S Model.ChatJob
  get_by_id_and_user_id id user_id =
      db.jobs.first (λ row. text_eq row.id id && text_eq row.user_id user_id)

  -- Updates(…).Error, which drops the rows affected.
  updates : Text → (Model.ChatJob → Model.ChatJob) → Exec S (Unit {0})
  updates id change = do db.jobs.update (has_id id) change; pure tt

  unfoldable pub mark_running : Text → Exec S (Unit {0})
  unfolding updates
  mark_running id s =
      let now = db.now s in
      updates id (λ row. record row { status = running; started_at = now; error_message = [] }) s

  unfoldable pub mark_success : Text → Text → Text → Exec S (Unit {0})
  unfolding updates
  mark_success id answer assistant_message_id s =
      let now = db.now s in
      updates id
        (λ row. record row {
          status = success;
          answer_text = answer;
          assistant_message_id = assistant_message_id;
          finished_at = now;
          error_message = [];
        })
        s

  unfoldable pub mark_failed : Text → Text → ℕ → Exec S (Unit {0})
  unfolding updates
  mark_failed id err_msg retry_count s =
      let now = db.now s in
      updates id
        (λ row. record row {
          status = failed;
          error_message = err_msg;
          retry_count = retry_count;
          finished_at = now;
        })
        s

  unfoldable pub mark_pending_for_retry : Text → Text → ℕ → Exec S (Unit {0})
  unfolding updates
  mark_pending_for_retry id err_msg retry_count =
      updates id
        (λ row. record row { status = pending; error_message = err_msg; retry_count = retry_count })
