-- ===== src/Worker/Termination.antt =====
-- cmd/worker/main.go: a delivery that is put back again and again.
use go_agent_chat_server.Base.{
  ℕ, zero, suc, ◌+◌, ◌≤◌, ◌<◌, ◌≡◌, ◌≢◌, refl, sym, ap, subst, ◌∙◌, Bool, true, false, Option, none,
  some, arith,
}
use go_agent_chat_server.Base.Text.{Text}
use go_agent_chat_server.Base.Exec.{Err, ok}
use go_agent_chat_server.Model
use go_agent_chat_server.Metrics.{Process}
use go_agent_chat_server.Store.ChatJob.{has_id}
use go_agent_chat_server.Queue.ChatTask.{ChatTask, TaskJson, decode_chat_task}
use go_agent_chat_server.Service.Chat.{ChatEnv}
use go_agent_chat_server.Service.AsyncChat.{AsyncChatService, process_task}
use go_agent_chat_server.Service.AsyncChat.Retries.{IsOk, process_task-retryable}
use go_agent_chat_server.Service.AsyncChat.Attempts.{HasRow, process_task-counts}
use go_agent_chat_server.Worker.{Settled, ack, requeue, settle, handle_decoded, handle_delivery}

-- After a delivery: the end, or the rest of the deliveries.
abbrev settled : {P : Type 0} → Settled × P → (P → Option P) → Option P
settled (ack, q) again = some q
settled (requeue, q) again = again q

module _ {S M : Type 0} (o : ChatEnv S M) (a : AsyncChatService S) (json : TaskJson)
    (body : Text) where
  -- The broker delivers a body again as long as the worker puts it back, at most `count` times: the
  -- process after the acknowledgement, or none.
  unfoldable pub redeliver : ℕ → Process S → Option (Process S)
  redeliver zero p = none
  redeliver (suc count) p =
      let again = λ (q : Process S). redeliver count q in
      settled (handle_delivery o a json body p) again

module _ {S M : Type 0} (o : ChatEnv S M) (a : AsyncChatService S) (json : TaskJson) (body : Text)
    {id : Text} {row : S → Model.ChatJob} (has_row : HasRow o id row)
    (healthy : (rows : Model.ChatJob → Bool) (change : Model.ChatJob → Model.ChatJob) (s : S)
      → IsOk (o.env.db.jobs.update rows change s).0)
    (task : ChatTask) (decoded : decode_chat_task json body ≡ ok task)
    (this : task.job_id ≡ id) where
  after_task :
      (count : ℕ) (p : Process S) (d : (Bool × Option Err) × Process S)
      → a.max_retry ≤ (row p.outside).retry_count + suc count
      → ((q : Process S)
          → 1 ≤ count
          → a.max_retry ≤ (row q.outside).retry_count + count
          → redeliver o a json body count q ≢ none)
      → process_task o a task p ≡ d
      → settled (settle d.0, d.1) (λ q. redeliver o a json body count q) ≢ none
  unfolding settle
  after_task count p ((again, none), q) enough rest outcome = cc
  after_task count p ((false, some e), q) enough rest outcome = cc
  after_task count p ((true, some e), q) enough rest outcome =
      let found : o.env.db.jobs.first (has_id task.job_id) p.outside
          ≡ (ok (row p.outside), p.outside) =
        ap (λ k. o.env.db.jobs.first (has_id k) p.outside) this ∙ has_row.first p.outside in
      let below : (row p.outside).retry_count + 1 < a.max_retry =
        process_task-retryable o a healthy task (row p.outside) p q (some e) found outcome in
      let counted : (row q.outside).retry_count ≡ (row p.outside).retry_count + 1 =
        process_task-counts o a has_row healthy task p q (some e) this outcome in
      rest q (omega arith) (omega arith)

  -- From a count of attempts on, the deliveries that are left are enough.
  redeliver-returns :
      (count : ℕ) (p : Process S)
      → 1 ≤ count
      → a.max_retry ≤ (row p.outside).retry_count + count
      → redeliver o a json body count p ≢ none
  unfolding redeliver handle_delivery handle_decoded
  redeliver-returns zero p some_left enough = absurd (omega arith)
  redeliver-returns (suc count) p some_left enough =
      subst (λ d. settled d (λ q. redeliver o a json body count q) ≢ none)
        (sym (ap (λ r. handle_decoded o a r p) decoded))
        (after_task count p (process_task o a task p) enough (redeliver-returns count) refl)

  -- When the body decodes to a task whose job is in the table, no update of the jobs fails and an
  -- update that keeps the identifier is seen, then within as many deliveries as the bound on
  -- attempts allows, which is at least 1, the worker acknowledges the task, whatever the model
  -- and everything else do.
  pub redeliver-ends :
      (p : Process S) → 1 ≤ a.max_retry → redeliver o a json body a.max_retry p ≢ none
  redeliver-ends p bound = redeliver-returns a.max_retry p bound (omega arith)
