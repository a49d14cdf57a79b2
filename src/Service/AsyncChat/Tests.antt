-- ===== src/Service/AsyncChat/Tests.antt =====
-- Tasks in an in-memory world.
use go_agent_chat_server.Base.{◌+◌, ◌<◌, ◌≡◌, refl, select, false, none, some}
use go_agent_chat_server.Base.Text.{codes}
use go_agent_chat_server.Base.Exec.{message}
use go_agent_chat_server.Model.{pending}
use go_agent_chat_server.Metrics.{add, call}
use go_agent_chat_server.Queue.ChatTask.{ChatTask}
use go_agent_chat_server.Service.AsyncChat.{process_task}
use go_agent_chat_server.Service.AsyncChat.Retries.{is_ok, process_task-retryable}
use go_agent_chat_server.Service.AsyncChat.Lifecycle.{Outcome, process_task-Outcome}
use go_agent_chat_server.Service.AsyncChat.Repeats.{process_task-repeats}
use go_agent_chat_server.World.{chat_env, service, job, stored, process, one_job, only_row}
use go_agent_chat_server.World.OneJob.{one_job-HasRow}

abbrev task : ChatTask
task = record {
  job_id = codes "j";
  user_id = codes "u";
  session_id = codes "s";
  model = codes "m";
  message = codes "hi";
  created_at = 5;
}

-- The session of the job is gone, so the answer fails.
process_task-retryable_example : 1 + 1 < 3
unfolding codes process_task select call add
process_task-retryable_example =
    process_task-retryable chat_env service (λ rows change s. is_ok) task (job pending 1)
      (stored (job pending 1)) (process_task chat_env service task (stored (job pending 1))).1
      (some (message (codes "session not found"))) refl refl

-- The session of the job is gone: the job is pending again, with one attempt.
process_task-Outcome_example :
    Outcome one_job service only_row
      (job pending 0)
      (process (job pending 0))
      (process_task one_job service task (process (job pending 0)))
process_task-Outcome_example =
    process_task-Outcome one_job service one_job-HasRow (λ rows change s. is_ok) task
      (process (job pending 0)) refl

-- The session of the job is gone, and the third attempt was the last.
process_task-repeats_example :
    process_task one_job service task
      (process_task one_job service task (process (job pending 2))).1
    ≡ ((false, none), (process_task one_job service task (process (job pending 2))).1)
unfolding codes process_task select call add
process_task-repeats_example =
    process_task-repeats one_job service one_job-HasRow (λ rows change s. is_ok) task
      (process (job pending 2)) (process_task one_job service task (process (job pending 2))).1
      (some (message (codes "session not found"))) refl refl
