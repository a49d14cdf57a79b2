-- ===== src/Worker/Requeue.antt =====
-- cmd/worker/main.go: which deliveries are put back into the queue.
use go_agent_chat_server.Base.{
  ◌+◌, ◌<◌, ◌≡◌, refl, sym, ap, ◌∙◌, Bool, true, false, Option, none, some, arith,
}
use go_agent_chat_server.Base.Text.{Text}
use go_agent_chat_server.Base.Exec.{Err, ok, err}
use go_agent_chat_server.Model
use go_agent_chat_server.Metrics.{Process}
use go_agent_chat_server.Store.ChatJob.{has_id}
use go_agent_chat_server.Queue.ChatTask.{ChatTask, TaskJson, decode_chat_task}
use go_agent_chat_server.Service.Chat.{ChatEnv}
use go_agent_chat_server.Service.AsyncChat.{AsyncChatService, process_task}
use go_agent_chat_server.Service.AsyncChat.Retries.{
  IsFinished, IsOk, process_task-finished, process_task-retryable,
}
use go_agent_chat_server.Worker.{ack, requeue, settle, handle_decoded, handle_delivery}

settle-requeue : (again : Bool) (e : Option Err) → settle (again, e) ≡ requeue → again ≡ true
unfolding settle
settle-requeue true e h = refl
settle-requeue false none h = ground arith
settle-requeue false (some e) h = ground arith

module _ {S M : Type 0} (o : ChatEnv S M) (a : AsyncChatService S) (json : TaskJson)
    (body : Text) where
  -- A delivery that does not decode, or names no job, is acknowledged and changes nothing.
  pub handle_delivery-undecodable :
      (e : Err) (p : Process S)
      → decode_chat_task json body ≡ err e
      → handle_delivery o a json body p ≡ (ack, p)
  unfolding handle_delivery handle_decoded
  handle_delivery-undecodable e p bad = ap (λ r. handle_decoded o a r p) bad

  -- When reading the job succeeds and changes nothing, a delivery of a job that has its answer,
  -- or that has failed with its attempts used up, is acknowledged and changes nothing.
  pub handle_delivery-finished :
      (task : ChatTask) (job : Model.ChatJob) (p : Process S)
      → decode_chat_task json body ≡ ok task
      → o.env.db.jobs.first (has_id task.job_id) p.outside ≡ (ok job, p.outside)
      → IsFinished a.max_retry job
      → handle_delivery o a json body p ≡ (ack, p)
  unfolding handle_delivery handle_decoded settle
  handle_delivery-finished task job p decoded found finished =
      ap (λ r. handle_decoded o a r p) decoded
      ∙ ap (λ r. (settle r.0, r.1)) (process_task-finished o a task job p found finished)

  -- When reading the job succeeds and changes nothing, and no update of the jobs fails, a
  -- delivery is put back into the queue only if the job's attempts, the present one included,
  -- stay below the bound.
  pub handle_delivery-requeue :
      (healthy : (rows : Model.ChatJob → Bool) (change : Model.ChatJob → Model.ChatJob) (s : S)
        → IsOk (o.env.db.jobs.update rows change s).0)
      (task : ChatTask) (job : Model.ChatJob) (p : Process S)
      → decode_chat_task json body ≡ ok task
      → o.env.db.jobs.first (has_id task.job_id) p.outside ≡ (ok job, p.outside)
      → (handle_delivery o a json body p).0 ≡ requeue
      → job.retry_count + 1 < a.max_retry
  unfolding handle_delivery handle_decoded
  handle_delivery-requeue healthy task job p decoded found queued =
      let ((again, e), q) = process_task o a task p in
      let settled : settle (again, e) ≡ requeue =
        ap (λ r. (handle_decoded o a r p).0) (sym decoded) ∙ queued in
      process_task-retryable o a healthy task job p q e found
        (ap (λ b. ((b, e), q)) (settle-requeue again e settled))
