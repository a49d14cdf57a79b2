-- ===== src/Service/AsyncChat/Attempts.antt =====
-- internal/service/async_chat_service.go: the count of attempts of a job.
use go_agent_chat_server.Base.{
  ℕ, ◌+◌, ◌≡◌, refl, sym, ap, ◌∙◌, Bool, true, false, Bool-cases, inl, inr, ◌&&◌, leb, Option,
  arith,
}
use go_agent_chat_server.Base.Text.{Text}
use go_agent_chat_server.Base.Exec.{Err, Result, ok, err, continue}
use go_agent_chat_server.Model
use go_agent_chat_server.Metrics.{Process, add, call}
use go_agent_chat_server.Store.ChatJob
use go_agent_chat_server.Store.ChatJob.{has_id}
use go_agent_chat_server.Queue.ChatTask.{ChatTask}
use go_agent_chat_server.Service.Chat.{ChatEnv, ChatResult}
use go_agent_chat_server.Service.AsyncChat.{
  AsyncChatService, is_success, is_failed, Processing, returned_or, answer_failed, answer_given,
  answered, run_job, process_job, process_task,
}
use go_agent_chat_server.Service.AsyncChat.Retries.{IsOk, IsOk-after, count_queue_wait-IsOk}

-- The row of a job: it is found, and an update that keeps its identifier is seen, where gorm also
-- sets the time of the update.
pub record HasRow {S M : Type 0} (o : ChatEnv S M) (id : Text) (row : S → Model.ChatJob)
    : Type 0 where
  pub first : (s : S) → o.env.db.jobs.first (has_id id) s ≡ (ok (row s), s)
  pub same_id : (s : S) → (row s).id ≡ id
  pub updated :
      (change : Model.ChatJob → Model.ChatJob) (s : S)
      → ((job : Model.ChatJob) → (change job).id ≡ job.id)
      → row (o.env.db.jobs.update (has_id id) change s).1 ≡ record (change (row s)) {
        updated_at = (row (o.env.db.jobs.update (has_id id) change s).1).updated_at;
      }

-- If the task is to run again, then its job counts `n` attempts.
record Counts {S : Type 0} (row : S → Model.ChatJob) (n : ℕ) (r : (Bool × Option Err) × Process S)
    : Type 0 where
  counts : r.0.0 ≡ true → (row r.1.outside).retry_count ≡ n

pub state-after :
    {S A B : Type 0} (r : Result A) (s : S) (b : B) → (continue (r, s) (λ _ t. (ok b, t))).1 ≡ s
state-after (ok x) s b = refl
state-after (err e) s b = refl

module _ {S A : Type 0} {row : S → Model.ChatJob} {n : ℕ} where
  Counts-returned_or :
      (again : Bool) (r : Result A) (p : Process S) (k : A → Processing (Process S))
      → IsOk r
      → ((x : A) (q : Process S) → Counts row n (k x q))
      → Counts row n (returned_or again (r, p) k)
  Counts-returned_or again (ok x) p k _ kk = kk x p
  Counts-returned_or again (err e) p k r_ok kk = elim r_ok [ ]

module _ {S M : Type 0} (o : ChatEnv S M) (a : AsyncChatService S) {id : Text}
    {row : S → Model.ChatJob} (has_row : HasRow o id row)
    (healthy : (rows : Model.ChatJob → Bool) (change : Model.ChatJob → Model.ChatJob) (s : S)
      → IsOk (o.env.db.jobs.update rows change s).0) where
  open has_row use {first, same_id, updated}

  answer_failed-Counts :
      (job : Model.ChatJob) (e : Err) (p : Process S)
      → job.id ≡ id
      → Counts row (job.retry_count + 1) (answer_failed o a job e p)
  unfolding answer_failed add call ChatJob.mark_pending_for_retry
  answer_failed-Counts job e p h = elim (Bool-cases (leb a.max_retry (job.retry_count + 1))) [
    | inl last ↦ rw last (record { counts = λ again. ground arith })
    | inr further ↦
        rw (further, h)
          (record {
            counts = λ again.
                ap (λ s. (row s).retry_count)
                  (state-after (o.env.db.jobs.update (has_id id) _ p.outside).0 _ tt)
                ∙ ap (λ j. j.retry_count) (updated _ p.outside (λ j. refl));
          })
  ]

  answered-Counts :
      (job : Model.ChatJob) (result : Result ChatResult) (p : Process S)
      → job.id ≡ id
      → Counts row (job.retry_count + 1) (answered o a job result p)
  unfolding answered answer_given add call ChatJob.mark_success
  answered-Counts job (err e) p h = answer_failed-Counts job e p h
  answered-Counts job (ok result) p h =
      Counts-returned_or true _ _ _ (IsOk-after _ _ tt (healthy _ _ _))
        (λ _ q. record { counts = λ again. ground arith })

  run_job-Counts :
      (job : Model.ChatJob) (p : Process S)
      → job.id ≡ id
      → Counts row (job.retry_count + 1) (run_job o a job p)
  unfolding run_job ChatJob.mark_running add call
  run_job-Counts job p h = Counts-returned_or true _ _ _ (IsOk-after _ _ tt (healthy _ _ _)) (λ _ q.
      Counts-returned_or true _ _ _ (count_queue_wait-IsOk o a job _)
        (λ _ r. answered-Counts job _ _ h))

  process_job-Counts :
      (job : Model.ChatJob) (p : Process S)
      → job.id ≡ id
      → Counts row (job.retry_count + 1) (process_job o a job p)
  unfolding process_job
  process_job-Counts job p h = elim (Bool-cases (is_success job.status)) [
    | inl done ↦ rw done (record { counts = λ again. ground arith })
    | inr unanswered ↦ elim (Bool-cases (leb a.max_retry job.retry_count && is_failed job.status)) [
      | inl used ↦ rw (unanswered, used) (record { counts = λ again. ground arith })
      | inr left ↦ rw (unanswered, left) (run_job-Counts job p h)
    ]
  ]

  -- A task that may run again has one attempt more in its job's row.
  pub process_task-counts :
      (task : ChatTask) (p q : Process S) (e : Option Err)
      → task.job_id ≡ id
      → process_task o a task p ≡ ((true, e), q)
      → (row q.outside).retry_count ≡ (row p.outside).retry_count + 1
  unfolding process_task ChatJob.get_by_id call
  process_task-counts task p q e this again =
      let found : o.env.db.jobs.first (has_id task.job_id) p.outside
          ≡ (ok (row p.outside), p.outside) =
        ap (λ k. o.env.db.jobs.first (has_id k) p.outside) this ∙ first p.outside in
      let outcome : process_job o a (row p.outside) p ≡ ((true, e), q) =
        sym (ap (λ r. returned_or false (r.0, record p { outside = r.1 }) (process_job o a)) found)
        ∙ again in
      sym (ap (λ r. (row r.1.outside).retry_count) outcome)
      ∙ (process_job-Counts (row p.outside) p (same_id p.outside)).counts (ap (λ r. r.0.0) outcome)
