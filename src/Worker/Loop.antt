-- ===== src/Worker/Loop.antt =====
-- cmd/worker/main.go: the loop over the deliveries. Between two steps of the loop the goroutines of
-- tasks end in any order; each runs its task in one step.
pub mod Safety
pub mod Shutdown
use go_agent_chat_server.Base.{
  ℕ, zero, suc, ◌+◌, ◌-◌, ◌≤◌, ◌<◌, Bool, true, false, List, [], ◌∷◌, ◌++◌, length, map, Option,
  none, some, ◌≡◌, refl, if◌then◌else◌, arith,
}
use go_agent_chat_server.Base.Text.{Text}
use go_agent_chat_server.Base.Int.{ℤ, pos, leb_ℤ, pos_part}
use go_agent_chat_server.Metrics.{Process}
use go_agent_chat_server.Queue.ChatTask.{TaskJson}
use go_agent_chat_server.Service.Chat.{ChatEnv}
use go_agent_chat_server.Service.AsyncChat.{AsyncChatService}
use go_agent_chat_server.Worker.{Settled, handle_delivery}

-- cap(sem)
unfoldable pub concurrency : ℤ → ℕ
concurrency worker_concurrency =
    if leb_ℤ worker_concurrency (pos 0) then 1 else pos_part worker_concurrency

-- The body of a delivery that was taken from the channel and waits for `sem <- struct{}{}`, the
-- bodies whose goroutines run, what became of the others, and all that were taken. `slots` is the
-- length of the semaphore and `wait_group` the counter of `wg`. `stopping` says that the loop is in
-- wg.Wait(), and `returned` that main has returned.
pub record LoopState (S : Type 0) : Type 0 where
  pub held : Option Text
  pub running : List Text
  pub settled : List (Text × Settled)
  pub received : List Text
  pub slots : ℕ
  pub wait_group : ℕ
  pub stopping : Bool
  pub returned : Bool
  pub process : Process S

unfoldable pub started : {S : Type 0} → Process S → LoopState S
started p = record {
  held = none;
  running = [];
  settled = [];
  received = [];
  slots = 0;
  wait_group = 0;
  stopping = false;
  returned = false;
  process = p;
}

module _ {S M : Type 0} (o : ChatEnv S M) (a : AsyncChatService S) (json : TaskJson) where
  -- A goroutine's task is done: the deferred calls free its slot and count it out.
  unfoldable pub finished : LoopState S → Text → List Text → LoopState S
  unfolding handle_delivery
  finished w body others =
      let (result, q) = handle_delivery o a json body w.process in
      record w {
        running = others;
        settled = (body, result) ∷ w.settled;
        slots = w.slots - 1;
        wait_group = w.wait_group - 1;
        process = q;
      }

module _ {S M : Type 0} (o : ChatEnv S M) (a : AsyncChatService S) (json : TaskJson) (cap : ℕ) where
  pub data Step (w v : LoopState S) : Type 0 where
    -- The select takes a delivery.
    receive :
        (body : Text)
        → w.stopping ≡ false
        → w.held ≡ none
        → v ≡ record w { held = some body; received = body ∷ w.received }
        → Step w v
    -- The semaphore has room, and the goroutine starts.
    start :
        (body : Text)
        → w.held ≡ some body
        → w.slots < cap
        → v ≡ record w {
          held = none;
          running = body ∷ w.running;
          slots = w.slots + 1;
          wait_group = w.wait_group + 1;
        }
        → Step w v
    -- One of the goroutines ends.
    finish :
        (before : List Text) (body : Text) (after : List Text)
        → w.running ≡ before ++ body ∷ after
        → v ≡ finished o a json w body (before ++ after)
        → Step w v
    -- The context is done, or the channel is closed.
    stop : w.stopping ≡ false → w.held ≡ none → v ≡ record w { stopping = true } → Step w v
    -- wg.Wait() returns, and so does main.
    leave :
        w.stopping ≡ true
        → w.returned ≡ false
        → w.wait_group ≡ 0
        → v ≡ record w { returned = true }
        → Step w v

  pub data Reach (w : LoopState S) : LoopState S → Type 0 where
    here : Reach w w
    next : {u v : LoopState S} → Reach w u → Step u v → Reach w v
