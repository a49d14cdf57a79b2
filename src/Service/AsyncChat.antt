-- ===== src/Service/AsyncChat.antt =====
-- internal/service/async_chat_service.go
pub mod Retries
pub mod Attempts
pub mod Lifecycle
pub mod Repeats
mod Tests
use go_agent_chat_server.Base.{
  Option, none, some, ℕ, ◌+◌, Bool, true, false, ◌&&◌, not, ◌==◌, leb, [], if◌then◌else◌,
}
use go_agent_chat_server.Base.Text.{Text, codes, is_empty, trim_space}
use go_agent_chat_server.Base.Int.{ℤ, pos, leb_ℤ, pos_part}
use go_agent_chat_server.Base.Exec.{
  Exec, Err, message, error_text, async_queue_disabled, Result, ok, err, pure, fail, reject, ignore,
  attempt, on_error, ◌>>=◌, ◌>>◌,
}
use go_agent_chat_server.Model
use go_agent_chat_server.Model.{ChatJobStatus, pending, running, success, failed}
use go_agent_chat_server.Metrics.{
  Process, add, call, duration_ms, chat_job_created_total, chat_job_running_total,
  chat_job_queue_wait_ms_total, chat_job_failed_total, chat_job_retried_total,
  chat_job_success_total,
}
use go_agent_chat_server.Store.ChatJob
use go_agent_chat_server.Queue.ChatTask.{ChatTask}
use go_agent_chat_server.Service.{fresh_id}
use go_agent_chat_server.Service.Message.{create_message}
use go_agent_chat_server.Service.Chat.{ChatEnv, ChatService, ChatResult}
use go_agent_chat_server.Service.Chat.Limits.{check_user_llm_rate_limit}
use go_agent_chat_server.Service.Chat.Answers.{check_request, generate_answer_from_history}

-- `enabled` says that the publisher is not the no-op one; a nil publisher is replaced by that.
pub record AsyncChatService (S : Type 0) : Type 0 where
  pub chat_service : ChatService
  pub enabled : Bool
  pub publish_chat_task : ChatTask → Exec (Process S) (Unit {0})
  pub max_retry : ℕ

unfoldable pub new_async_chat_service :
    {S : Type 0}
    → ChatService
    → Bool
    → (ChatTask → Exec (Process S) (Unit {0}))
    → ℤ
    → AsyncChatService S
new_async_chat_service chat_service enabled publish max_retry = record {
  chat_service = chat_service;
  enabled = enabled;
  publish_chat_task = publish;
  max_retry = if leb_ℤ max_retry (pos 0) then 3 else pos_part max_retry;
}

unfoldable pub is_success : ChatJobStatus → Bool
is_success success = true
is_success _ = false

unfoldable pub is_failed : ChatJobStatus → Bool
is_failed failed = true
is_failed _ = false

module _ {S M : Type 0} (o : ChatEnv S M) (a : AsyncChatService S) where
  unfoldable pub new_job : Text → Text → Text → Text → Text → Text → Model.ChatJob
  new_job id user_id session_id model_name request user_message_id = record {
    id = id;
    user_id = user_id;
    session_id = session_id;
    model = model_name;
    status = pending;
    request_text = request;
    user_message_id = user_message_id;
    answer_text = [];
    error_message = [];
    retry_count = 0;
    assistant_message_id = [];
    started_at = 0;
    finished_at = 0;
    created_at = 0;
    updated_at = 0;
  }

  -- The publication of a job's task: when it fails, the job is marked so.
  unfoldable pub publish_job : Model.ChatJob → Exec (Process S) Model.ChatJob
  unfolding error_text ChatJob.mark_failed
  publish_job job p =
      let task : ChatTask = record {
        job_id = job.id;
        user_id = job.user_id;
        session_id = job.session_id;
        model = job.model;
        message = job.request_text;
        created_at = o.env.db.now p.outside;
      } in
      on_error (a.publish_chat_task task)
        (λ e. do ignore (call (ChatJob.mark_failed o.env.db job.id (error_text e) 0)); fail e)
        (λ _. pure job) p

  unfoldable pub submit : Text → Text → Text → Text → Exec (Process S) Model.ChatJob
  unfolding codes check_request check_user_llm_rate_limit create_message new_job publish_job
  submit user_id session_id model_name request = do
    check_request o a.chat_service user_id session_id request
    reject (not a.enabled) async_queue_disabled
    check_user_llm_rate_limit o a.chat_service user_id
    user_msg ← create_message o.env user_id session_id (codes "user") request
    id ← call (fresh_id o.env)
    let job = new_job id user_id session_id model_name request user_msg.id
    call (ChatJob.create o.env.db job)
    add chat_job_created_total (pos 1)
    publish_job job

  unfoldable pub get_job : Text → Text → Exec (Process S) Model.ChatJob
  unfolding codes ChatJob.get_by_id_and_user_id
  get_job user_id job_id = do
    reject (is_empty user_id) (message (codes "user_id is required"))
    reject (is_empty job_id) (message (codes "job_id is required"))
    call (ChatJob.get_by_id_and_user_id o.env.db job_id user_id)

-- (retryable, err)
abbrev pub Processing : Type 0 → Type 0
Processing P = P → (Bool × Option Err) × P

module _ {P A : Type 0} where
  abbrev pub returned_or : Bool → Result A × P → (A → Processing P) → (Bool × Option Err) × P
  returned_or retryable (ok x, p) k = k x p
  returned_or retryable (err e, p) k = ((retryable, some e), p)

  -- `if err != nil { return retryable, err }`
  abbrev pub or_return : Bool → Exec P A → (A → Processing P) → Processing P
  or_return retryable m k p = returned_or retryable (m p) k

module _ {S M : Type 0} (o : ChatEnv S M) (a : AsyncChatService S) where
  abbrev returned : Bool → Err → Unit {0} → Processing (Process S)
  returned again e _ p = ((again, some e), p)

  -- The model has failed.
  unfoldable pub answer_failed : Model.ChatJob → Err → Processing (Process S)
  unfolding error_text ChatJob.mark_failed ChatJob.mark_pending_for_retry
  answer_failed job e =
      let next_retry = job.retry_count + 1 in
      if leb a.max_retry next_retry
      then or_return false
          (do
            ignore (call (ChatJob.mark_failed o.env.db job.id (error_text e) next_retry))
            add chat_job_failed_total (pos 1))
          (returned false e)
      else or_return true
          (do
            ignore (call (ChatJob.mark_pending_for_retry o.env.db job.id (error_text e) next_retry))
            add chat_job_retried_total (pos 1))
          (returned true e)

  unfoldable pub answer_given : Model.ChatJob → ChatResult → Processing (Process S)
  unfolding ChatJob.mark_success
  answer_given job result =
      or_return true
        (call (ChatJob.mark_success o.env.db job.id result.answer result.assistant_message_id))
        λ _. or_return true (add chat_job_success_total (pos 1)) λ _ p. ((false, none), p)

  -- Behind the model's call.
  unfoldable pub answered : Model.ChatJob → Result ChatResult → Processing (Process S)
  unfolding answer_failed answer_given
  answered job (ok result) = answer_given job result
  answered job (err e) = answer_failed job e

  -- The wait in the queue, unless the job has no creation time.
  unfoldable pub count_queue_wait : Model.ChatJob → Exec (Process S) (Unit {0})
  count_queue_wait job p =
      (if job.created_at == 0
          then pure tt
          else add chat_job_queue_wait_ms_total
              (duration_ms job.created_at (o.env.db.now p.outside)))
        p

  -- The job is neither done nor given up.
  unfoldable pub run_job : Model.ChatJob → Processing (Process S)
  unfolding ChatJob.mark_running count_queue_wait generate_answer_from_history answered
  run_job job = or_return true (call (ChatJob.mark_running o.env.db job.id)) λ _.
      or_return true (do add chat_job_running_total (pos 1); count_queue_wait job)
        λ _ p.
          let (result, q) =
            generate_answer_from_history o a.chat_service job.user_id job.session_id job.model
              job.request_text p in
          answered job result q

  -- ProcessTask behind the reading of the job.
  unfoldable pub process_job : Model.ChatJob → Processing (Process S)
  unfolding is_success is_failed run_job
  process_job job =
      if is_success job.status
      then (λ p. ((false, none), p))
      else if leb a.max_retry job.retry_count && is_failed job.status
      then (λ p. ((false, none), p))
      else run_job job

  unfoldable pub process_task : ChatTask → Processing (Process S)
  unfolding ChatJob.get_by_id process_job
  process_task task = or_return false (call (ChatJob.get_by_id o.env.db task.job_id)) process_job
