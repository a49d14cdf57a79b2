-- ===== src/Service/AsyncChat/Retries.antt =====
-- internal/service/async_chat_service.go and cmd/worker/main.go: which tasks run again.
use go_agent_chat_server.Base.{
  ℕ, ◌+◌, ◌≤◌, ◌<◌, ◌≡◌, refl, sym, ap, ◌∙◌, ◌⊎◌, inl, inr, Bool, true, false, Bool-cases, ◌&&◌,
  leb, ◌==◌, Option, none, arith,
}
use go_agent_chat_server.Base.Exec.{Err, Result, ok, err, continue}
use go_agent_chat_server.Model
use go_agent_chat_server.Model.{ChatJobStatus, pending, running, success, failed}
use go_agent_chat_server.Metrics.{Process, add, call}
use go_agent_chat_server.Store.ChatJob
use go_agent_chat_server.Store.ChatJob.{has_id}
use go_agent_chat_server.Queue.ChatTask.{ChatTask}
use go_agent_chat_server.Service.Chat.{ChatEnv, ChatResult}
use go_agent_chat_server.Service.AsyncChat.{
  AsyncChatService, is_success, is_failed, Processing, returned_or, answer_failed, answer_given,
  answered, count_queue_wait, run_job, process_job, process_task,
}

-- Nothing is left to do for a job: it has its answer, or its attempts are used up.
abbrev pub IsFinished : ℕ → Model.ChatJob → Type 0
IsFinished max_retry job =
    (job.status ≡ success) ⊎ ((job.status ≡ failed) × (max_retry ≤ job.retry_count))

-- A call that returns no error.
pub data IsOk {A : Type 0} : Result A → Type 0 where
  is_ok : {x : A} → IsOk (ok x)

module _ {S M : Type 0} (o : ChatEnv S M) (a : AsyncChatService S) where
  pub count_queue_wait-IsOk :
      (job : Model.ChatJob) (p : Process S) → IsOk (count_queue_wait o a job p).0
  unfolding count_queue_wait add
  count_queue_wait-IsOk job p = elim (Bool-cases (job.created_at == 0)) [
    | inl zero_time ↦ rw zero_time is_ok
    | inr some_time ↦ rw some_time is_ok
  ]

  process_job-finished :
      (job : Model.ChatJob) (p : Process S)
      → IsFinished a.max_retry job
      → process_job o a job p ≡ ((false, none), p)
  unfolding process_job is_success is_failed
  process_job-finished job p (inl done) = rw done refl
  process_job-finished job p (inr (gave_up, used)) =
      let at_limit : leb a.max_retry job.retry_count ≡ true = ground arith in
      rw (gave_up, at_limit) refl

  -- When reading the job succeeds and changes nothing, ProcessTask on a job that has its answer,
  -- or that has failed with its attempts used up, returns (false, nil) and leaves the process and
  -- everything outside as they were: a task that is delivered again does not ask the model again.
  pub process_task-finished :
      (task : ChatTask) (job : Model.ChatJob) (p : Process S)
      → o.env.db.jobs.first (has_id task.job_id) p.outside ≡ (ok job, p.outside)
      → IsFinished a.max_retry job
      → process_task o a task p ≡ ((false, none), p)
  unfolding process_task ChatJob.get_by_id call
  process_task-finished task job p found finished =
      ap (λ r. returned_or false (r.0, record p { outside = r.1 }) (process_job o a)) found
      ∙ process_job-finished job p finished

-- If the outcome of a task is to run it again, then `bound` holds.
record RetriesWithin {P : Type 0} (bound : Type 0) (r : (Bool × Option Err) × P) : Type 0 where
  within : r.0.0 ≡ true → bound

module _ {P A : Type 0} {bound : Type 0} where
  within-returned_or :
      (again : Bool) (r : Result A) (p : P) (k : A → Processing P)
      → IsOk r
      → ((x : A) (q : P) → RetriesWithin bound (k x q))
      → RetriesWithin bound (returned_or again (r, p) k)
  within-returned_or again (ok x) p k _ kk = kk x p
  within-returned_or again (err e) p k r_ok kk = elim r_ok [ ]

pub IsOk-after :
    {S A B : Type 0} (r : Result A) (s : S) (b : B)
    → IsOk r
    → IsOk (continue (r, s) (λ _ t. (ok b, t))).0
IsOk-after (ok x) s b _ = is_ok
IsOk-after (err e) s b r_ok = elim r_ok [ ]

module _ {S M : Type 0} (o : ChatEnv S M) (a : AsyncChatService S)
    (healthy : (rows : Model.ChatJob → Bool) (change : Model.ChatJob → Model.ChatJob) (s : S)
      → IsOk (o.env.db.jobs.update rows change s).0) where
  answered-within :
      (job : Model.ChatJob) (result : Result ChatResult) (p : Process S)
      → RetriesWithin (job.retry_count + 1 < a.max_retry) (answered o a job result p)
  unfolding answered answer_failed answer_given add call ChatJob.mark_success
  answered-within job (ok result) p =
      within-returned_or true _ _ _ (IsOk-after _ _ tt (healthy _ _ p.outside))
        (λ _ q. record { within = λ h. ground arith })
  answered-within job (err e) p = elim (Bool-cases (leb a.max_retry (job.retry_count + 1))) [
    | inl last ↦ rw last (record { within = λ h. ground arith })
    | inr more ↦ rw more (record { within = λ h. ground arith })
  ]

  run_job-within :
      (job : Model.ChatJob) (p : Process S)
      → RetriesWithin (job.retry_count + 1 < a.max_retry) (run_job o a job p)
  unfolding run_job ChatJob.mark_running add call
  run_job-within job p =
      within-returned_or true _ _ _ (IsOk-after _ _ tt (healthy _ _ p.outside)) (λ _ q.
        within-returned_or true _ _ _ (count_queue_wait-IsOk o a job _)
          (λ _ r. answered-within job _ _))

  process_job-within :
      (job : Model.ChatJob) (p : Process S)
      → RetriesWithin (job.retry_count + 1 < a.max_retry) (process_job o a job p)
  unfolding process_job
  process_job-within job p = elim (Bool-cases (is_success job.status)) [
    | inl done ↦ rw done (record { within = λ h. ground arith })
    | inr open_job ↦ elim (Bool-cases (leb a.max_retry job.retry_count && is_failed job.status)) [
      | inl used ↦ rw (open_job, used) (record { within = λ h. ground arith })
      | inr left ↦ rw (open_job, left) (run_job-within job p)
    ]
  ]

  -- When reading the job succeeds and changes nothing, and no update of the jobs fails,
  -- ProcessTask says that a task may run again only if the job's attempts, the present one
  -- included, stay below the bound.
  pub process_task-retryable :
      (task : ChatTask) (job : Model.ChatJob) (p q : Process S) (e : Option Err)
      → o.env.db.jobs.first (has_id task.job_id) p.outside ≡ (ok job, p.outside)
      → process_task o a task p ≡ ((true, e), q)
      → job.retry_count + 1 < a.max_retry
  unfolding process_task ChatJob.get_by_id call
  process_task-retryable task job p q e found again = (process_job-within job p).within (
      ap (λ r. r.0.0)
        (sym (ap (λ r. returned_or false (r.0, record p { outside = r.1 }) (process_job o a)) found)
          ∙ again))
