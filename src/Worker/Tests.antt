-- ===== src/Worker/Tests.antt =====
-- Deliveries in an in-memory world.
use go_agent_chat_server.Base.{◌+◌, ◌<◌, ◌≢◌, refl, true, none, some, select, [], ◌∷◌, arith}
use go_agent_chat_server.Base.Text.{Text, codes, text_eq}
use go_agent_chat_server.Base.Exec.{ok}
use go_agent_chat_server.Model.{pending, failed}
use go_agent_chat_server.Metrics.{add, call}
use go_agent_chat_server.Queue.ChatTask.{ChatTask, TaskJson, decode_chat_task}
use go_agent_chat_server.Service.AsyncChat.Retries.{is_ok}
use go_agent_chat_server.World.{World, chat_env, service, job, stored, process, one_job}
use go_agent_chat_server.World.OneJob.{one_job-HasRow}
use go_agent_chat_server.Worker.{handle_delivery}
use go_agent_chat_server.Worker.Loop.{LoopState, started, receive, start, stop, Reach, here, next}
use go_agent_chat_server.Worker.Loop.Safety.{IsSafe, Reach-IsSafe}
use go_agent_chat_server.Worker.Loop.Shutdown.{Returns, shutdown-returns}
use go_agent_chat_server.Worker.Termination.{redeliver, redeliver-ends}
use go_agent_chat_server.Worker.Requeue.{handle_delivery-requeue}

-- A body is the identifier of a job.
abbrev task : Text → ChatTask
task body = record {
  job_id = body;
  user_id = [];
  session_id = [];
  model = [];
  message = [];
  created_at = 5;
}

abbrev json : TaskJson
json = record { marshal_task = λ t. ok t.job_id; unmarshal_task = λ body. ok (task body) }

handle_delivery-requeue_example : 1 + 1 < 3
unfolding codes select text_eq add call handle_delivery
handle_delivery-requeue_example =
    handle_delivery-requeue chat_env service json (codes "j") (λ rows change s. is_ok)
      (task (codes "j")) (job pending 1) (stored (job pending 1)) refl refl refl

-- The session of the job is gone, so all three attempts fail.
redeliver-ends_example :
    (redeliver one_job service json (codes "j") 3 (process (job pending 0)) ≢ none)
unfolding decode_chat_task
redeliver-ends_example =
    redeliver-ends one_job service json (codes "j") one_job-HasRow (λ rows change s. is_ok)
      (task (codes "j")) refl refl (process (job pending 0)) (omega arith)

abbrev body : Text
body = codes "j"

abbrev waiting_world : LoopState World
waiting_world = started (stored (job failed 3))

abbrev one_held : LoopState World
one_held = record waiting_world { held = some body; received = body ∷ [] }

abbrev one_running : LoopState World
one_running = record one_held { held = none; running = body ∷ []; slots = 1; wait_group = 1 }

abbrev one_left : LoopState World
one_left = record one_running { stopping = true }

one_left-Reach : Reach chat_env service json 2 waiting_world one_left
unfolding started
one_left-Reach =
    next (next (next here (receive body refl refl refl)) (start body refl (omega arith) refl))
      (stop refl refl refl)

Reach-IsSafe_example : IsSafe 2 one_left
Reach-IsSafe_example =
    Reach-IsSafe chat_env service json 2 (stored (job failed 3)) {w = one_left} one_left-Reach

shutdown-returns_example : Returns chat_env service json 2 (body ∷ []) one_left
unfolding started
shutdown-returns_example =
    shutdown-returns chat_env service json 2 (stored (job failed 3)) one_left one_left-Reach refl
      refl
