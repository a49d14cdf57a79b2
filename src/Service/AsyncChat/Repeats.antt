-- ===== src/Service/AsyncChat/Repeats.antt =====
-- internal/service/async_chat_service.go: a task that is delivered again behind its end.
use go_agent_chat_server.Base.{
  ℕ, ◌≡◌, refl, sym, ap, subst, ◌∙◌, Bool, false, inl, inr, Option, none,
}
use go_agent_chat_server.Base.Text.{Text}
use go_agent_chat_server.Base.Exec.{Err, Result, ok, err}
use go_agent_chat_server.Model
use go_agent_chat_server.Metrics.{Process}
use go_agent_chat_server.Store.ChatJob.{has_id}
use go_agent_chat_server.Queue.ChatTask.{ChatTask}
use go_agent_chat_server.Service.Chat.{ChatEnv, ChatResult}
use go_agent_chat_server.Service.AsyncChat.{AsyncChatService, process_task}
use go_agent_chat_server.Service.AsyncChat.Retries.{IsOk, IsFinished, process_task-finished}
use go_agent_chat_server.Service.AsyncChat.Attempts.{HasRow}
use go_agent_chat_server.Service.AsyncChat.Lifecycle.{
  Ending, Outcome, untouched, attempted, process_task-Outcome,
}

-- An attempt that is not to be repeated leaves a job that is finished.
Ending-IsFinished :
    (max_retry : ℕ) (old : Model.ChatJob) (result : Result ChatResult) (new : Model.ChatJob)
    (d : Bool × Option Err)
    → Ending max_retry old result new d
    → d.0 ≡ false
    → IsFinished max_retry new
Ending-IsFinished max_retry old (ok result) new d (_, answered, _, _, _) last = inl answered
Ending-IsFinished max_retry old (err e) new d (_, _, inl (used, gave_up, _)) last =
    inr (gave_up, used)
Ending-IsFinished max_retry old (err e) new d (_, _, inr (_, _, again)) last =
    absurd (cc (ap (λ r. r.0) again, last))

module _ {S M : Type 0} (o : ChatEnv S M) (a : AsyncChatService S) {id : Text}
    {row : S → Model.ChatJob} (has_row : HasRow o id row)
    (healthy : (rows : Model.ChatJob → Bool) (change : Model.ChatJob → Model.ChatJob) (s : S)
      → IsOk (o.env.db.jobs.update rows change s).0) where
  Outcome-IsFinished :
      (job : Model.ChatJob) (p : Process S) (d : (Bool × Option Err) × Process S)
      → job ≡ row p.outside
      → Outcome o a row job p d
      → d.0.0 ≡ false
      → IsFinished a.max_retry (row d.1.outside)
  Outcome-IsFinished job p d same (untouched finished e) last =
      subst (IsFinished a.max_retry) (same ∙ ap (λ r. row r.1.outside) (sym e)) finished
  Outcome-IsFinished job p d same (attempted q _ ending) last =
      Ending-IsFinished a.max_retry job _ _ _ ending last

  -- When the task's job is in the table, no update of the jobs fails and an update that keeps the
  -- identifier is seen, a task that ProcessTask says not to run again, with an error or without,
  -- is finished: ProcessTask on the same task from the state that it left returns (false, nil) and
  -- changes nothing, so a task that is delivered twice does not ask the model again.
  pub process_task-repeats :
      (task : ChatTask) (p q : Process S) (e : Option Err)
      → task.job_id ≡ id
      → process_task o a task p ≡ ((false, e), q)
      → process_task o a task q ≡ ((false, none), q)
  process_task-repeats task p q e this ended =
      let outcome = process_task-Outcome o a has_row healthy task p this in
      let finished =
        Outcome-IsFinished (row p.outside) p (process_task o a task p) refl outcome
          (ap (λ r. r.0.0) ended) in
      let found : o.env.db.jobs.first (has_id task.job_id) q.outside
          ≡ (ok (row q.outside), q.outside) =
        ap (λ k. o.env.db.jobs.first (has_id k) q.outside) this ∙ has_row.first q.outside in
      process_task-finished o a task (row q.outside) q found
        (subst (λ r. IsFinished a.max_retry (row r.1.outside)) ended finished)
