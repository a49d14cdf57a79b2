-- ===== src/Service/AsyncChat/Lifecycle.antt =====
-- internal/service/async_chat_service.go: the statuses that a job goes through.
use go_agent_chat_server.Base.{
  ℕ, ◌+◌, ◌≤◌, ◌<◌, ◌≡◌, refl, sym, ap, subst, ◌∙◌, Bool, true, false, Bool-cases, ◌⊎◌, inl, inr,
  ◌&&◌, leb, ◌==◌, Option, none, some, [], arith,
}
use go_agent_chat_server.Base.Text.{Text}
use go_agent_chat_server.Base.Exec.{Err, error_text, Result, ok, err, continue}
use go_agent_chat_server.Model
use go_agent_chat_server.Model.{pending, running, success, failed}
use go_agent_chat_server.Metrics.{Process, add, call}
use go_agent_chat_server.Store.ChatJob
use go_agent_chat_server.Store.ChatJob.{has_id}
use go_agent_chat_server.Queue.ChatTask.{ChatTask}
use go_agent_chat_server.Service.Chat.{ChatEnv, ChatResult}
use go_agent_chat_server.Service.Chat.Answers.{generate_answer_from_history}
use go_agent_chat_server.Service.AsyncChat.{
  count_queue_wait, AsyncChatService, is_success, is_failed, Processing, returned_or, answer_failed,
  answer_given, answered, run_job, process_job, process_task,
}
use go_agent_chat_server.Service.AsyncChat.Retries.{
  IsOk, IsOk-after, IsFinished, count_queue_wait-IsOk,
}
use go_agent_chat_server.Service.AsyncChat.Attempts.{HasRow, state-after}

-- How an attempt ends: from what the model's call returned to the row and to what ProcessTask
-- returns.
abbrev pub Ending :
    ℕ → Model.ChatJob → Result ChatResult → Model.ChatJob → Bool × Option Err → Type 0
Ending max_retry old (ok result) new d =
    (d ≡ (false, none))
    × (new.status ≡ success)
    × (new.error_message ≡ [])
    × (new.answer_text ≡ result.answer)
    × (new.assistant_message_id ≡ result.assistant_message_id)
Ending max_retry old (err e) new d =
    (new.error_message ≡ error_text e)
    × (new.retry_count ≡ old.retry_count + 1)
    × (((max_retry ≤ new.retry_count) × (new.status ≡ failed) × (d ≡ (false, some e)))
        ⊎ ((new.retry_count < max_retry) × (new.status ≡ pending) × (d ≡ (true, some e))))

-- What becomes of a job.
pub data Outcome {S M : Type 0} (o : ChatEnv S M) (a : AsyncChatService S) (row : S → Model.ChatJob)
    (job : Model.ChatJob) (p : Process S) (d : (Bool × Option Err) × Process S) : Type 0 where
  -- Nothing was left to do.
  untouched : IsFinished a.max_retry job → d ≡ ((false, none), p) → Outcome o a row job p d
  -- The model was asked from a state in which the job was running.
  attempted :
      (q : Process S)
      → (row q.outside).status ≡ running
      → Ending a.max_retry job
          (generate_answer_from_history o a.chat_service job.user_id job.session_id job.model
            job.request_text q).0
          (row d.1.outside)
          d.0
      → Outcome o a row job p d

success_only : (status : Model.ChatJobStatus) → is_success status ≡ true → status ≡ success
unfolding is_success
success_only success h = refl
success_only pending h = ground arith
success_only running h = ground arith
success_only failed h = ground arith

failed_only : (status : Model.ChatJobStatus) → is_failed status ≡ true → status ≡ failed
unfolding is_failed
failed_only failed h = refl
failed_only pending h = ground arith
failed_only running h = ground arith
failed_only success h = ground arith

used_up :
    (max_retry : ℕ) (job : Model.ChatJob)
    → leb max_retry job.retry_count && is_failed job.status ≡ true
    → (job.status ≡ failed) × (max_retry ≤ job.retry_count)
used_up max_retry job h = elim (Bool-cases (is_failed job.status)) [
  | inl gave_up ↦ (failed_only job.status gave_up, ground arith)
  | inr other ↦ absurd (ground arith)
]

module _ {S A : Type 0} (Holds : (Bool × Option Err) × Process S → Type 0) where
  holds-returned_or :
      (again : Bool) (r : Result A) (p : Process S) (k : A → Processing (Process S))
      → IsOk r
      → ((x : A) → Holds (k x p))
      → Holds (returned_or again (r, p) k)
  holds-returned_or again (ok x) p k _ kk = kk x
  holds-returned_or again (err e) p k r_ok kk = elim r_ok [ ]

module _ {S M : Type 0} (o : ChatEnv S M) (a : AsyncChatService S) (job : Model.ChatJob)
    {row : S → Model.ChatJob} (has_row : HasRow o job.id row)
    (healthy : (rows : Model.ChatJob → Bool) (change : Model.ChatJob → Model.ChatJob) (s : S)
      → IsOk (o.env.db.jobs.update rows change s).0) where
  open has_row use {updated}

  abbrev Ended : Result ChatResult → (Bool × Option Err) × Process S → Type 0
  Ended result d = Ending a.max_retry job result (row d.1.outside) d.0

  -- The row is the new one, whatever the time of the update.
  abbrev IsWritten : S → Model.ChatJob → Type 0
  IsWritten t new = row t ≡ record new { updated_at = (row t).updated_at }

  written :
      (change : Model.ChatJob → Model.ChatJob) (s : S)
      → ((j : Model.ChatJob) → (change j).id ≡ j.id)
      → IsWritten
          (continue (o.env.db.jobs.update (has_id job.id) change s) (λ _ t. (ok tt, t))).1
          (change (row s))
  written change s same =
      subst (λ t. IsWritten t (change (row s)))
        (sym (state-after (o.env.db.jobs.update (has_id job.id) change s).0 _ tt))
        (updated change s same)

  answer_given-Ends :
      (result : ChatResult) (p : Process S) → Ended (ok result) (answer_given o a job result p)
  unfolding answer_given add call ChatJob.mark_success
  answer_given-Ends result p =
      holds-returned_or (Ended (ok result)) true _ _ _ (IsOk-after _ _ tt (healthy _ _ p.outside))
        (λ _.
          let seen = written _ p.outside (λ j. refl) in
          (
            refl,
            ap (λ j. j.status) seen,
            ap (λ j. j.error_message) seen,
            ap (λ j. j.answer_text) seen,
            ap (λ j. j.assistant_message_id) seen,
          ))

  mark_failed-row :
      (text : Text) (n : ℕ) (s : S)
      → IsWritten (ChatJob.mark_failed o.env.db job.id text n s).1 (record (row s) {
        status = failed;
        error_message = text;
        retry_count = n;
        finished_at = o.env.db.now s;
      })
  unfolding ChatJob.mark_failed
  mark_failed-row text n s = written _ s (λ j. refl)

  mark_pending-row :
      (text : Text) (n : ℕ) (s : S)
      → IsWritten
          (ChatJob.mark_pending_for_retry o.env.db job.id text n s).1
          (record (row s) { status = pending; error_message = text; retry_count = n })
  unfolding ChatJob.mark_pending_for_retry
  mark_pending-row text n s = written _ s (λ j. refl)

  mark_running-row : (s : S) → (row (ChatJob.mark_running o.env.db job.id s).1).status ≡ running
  unfolding ChatJob.mark_running
  mark_running-row s = ap (λ j. j.status) (written _ s (λ j. refl))

  answer_failed-Ends : (e : Err) (p : Process S) → Ended (err e) (answer_failed o a job e p)
  unfolding answer_failed add call
  answer_failed-Ends e p = elim (Bool-cases (leb a.max_retry (job.retry_count + 1))) [
    | inl last ↦
        let seen = mark_failed-row (error_text e) (job.retry_count + 1) p.outside in
        let count = ap (λ j. j.retry_count) seen in
        rw last
          (ap (λ j. j.error_message) seen, count, inl (ground arith, ap (λ j. j.status) seen, refl))
    | inr further ↦
        let seen = mark_pending-row (error_text e) (job.retry_count + 1) p.outside in
        let count = ap (λ j. j.retry_count) seen in
        rw further
          (ap (λ j. j.error_message) seen, count, inr (ground arith, ap (λ j. j.status) seen, refl))
  ]

  answered-Ends :
      (result : Result ChatResult) (p : Process S) → Ended result (answered o a job result p)
  unfolding answered
  answered-Ends (ok result) p = answer_given-Ends result p
  answered-Ends (err e) p = answer_failed-Ends e p

  count_queue_wait-outside : (p : Process S) → (count_queue_wait o a job p).1.outside ≡ p.outside
  unfolding count_queue_wait add
  count_queue_wait-outside p = elim (Bool-cases (job.created_at == 0)) [
    | inl zero_time ↦ rw zero_time refl
    | inr some_time ↦ rw some_time refl
  ]

  run_job-Outcome : (p : Process S) → Outcome o a row job p (run_job o a job p)
  unfolding run_job add call
  run_job-Outcome p =
      holds-returned_or (Outcome o a row job p) true _ _ _
        (IsOk-after _ _ tt (healthy _ _ p.outside))
        (λ _.
          holds-returned_or (Outcome o a row job p) true _ _ _ (count_queue_wait-IsOk o a job _)
            (λ _.
              attempted _
                (ap (λ s. (row s).status) (count_queue_wait-outside _) ∙ mark_running-row p.outside)
                (answered-Ends _ _)))

  process_job-Outcome : (p : Process S) → Outcome o a row job p (process_job o a job p)
  unfolding process_job
  process_job-Outcome p = elim (Bool-cases (is_success job.status)) [
    | inl done ↦ rw done (untouched (inl (success_only job.status done)) refl)
    | inr unanswered ↦ elim (Bool-cases (leb a.max_retry job.retry_count && is_failed job.status)) [
      | inl used ↦ rw (unanswered, used) (untouched (inr (used_up a.max_retry job used)) refl)
      | inr left ↦ rw (unanswered, left) (run_job-Outcome p)
    ]
  ]

module _ {S M : Type 0} (o : ChatEnv S M) (a : AsyncChatService S) {id : Text}
    {row : S → Model.ChatJob} (has_row : HasRow o id row)
    (healthy : (rows : Model.ChatJob → Bool) (change : Model.ChatJob → Model.ChatJob) (s : S)
      → IsOk (o.env.db.jobs.update rows change s).0) where
  -- When the task's job is in the table, no update of the jobs fails and an update that keeps the
  -- identifier is seen, ProcessTask does one of two things. Either the job has its answer, or has
  -- failed with its attempts used up, and it leaves all as it was and returns (false, nil). Or it
  -- asks the model for the job's request from a state in which the job is running, and the outcome
  -- is in the job's row afterwards: with an answer, the answer, the identifier of its message, no
  -- error text and the status success, and it returns (false, nil); with an error, its text and one
  -- attempt more, and below the bound on attempts the status pending and (true, the error), from
  -- the bound on the status failed and (false, the error).
  pub process_task-Outcome :
      (task : ChatTask) (p : Process S)
      → task.job_id ≡ id
      → Outcome o a row (row p.outside) p (process_task o a task p)
  unfolding process_task ChatJob.get_by_id call
  process_task-Outcome task p this =
      let found : o.env.db.jobs.first (has_id task.job_id) p.outside
          ≡ (ok (row p.outside), p.outside) =
        ap (λ k. o.env.db.jobs.first (has_id k) p.outside) this ∙ has_row.first p.outside in
      subst
        (λ r.
          Outcome o a row (row p.outside) p
            (returned_or false (r.0, record p { outside = r.1 }) (process_job o a)))
        (sym found)
        (process_job-Outcome o a (row p.outside)
          (subst (λ k. HasRow o k row) (sym (has_row.same_id p.outside)) has_row) healthy p)
