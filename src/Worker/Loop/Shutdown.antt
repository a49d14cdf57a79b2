-- ===== src/Worker/Loop/Shutdown.antt =====
-- cmd/worker/main.go: the end of the loop.
use mathlib.Core.List.{Perm, append-nil}
use go_agent_chat_server.Base.{
  ℕ, zero, suc, true, false, List, [], ◌∷◌, ◌++◌, length, length-append, ◌≡◌, refl, sym, ap, subst,
  ◌∙◌, arith,
}
use go_agent_chat_server.Base.Text.{Text}
use go_agent_chat_server.Metrics.{Process}
use go_agent_chat_server.Queue.ChatTask.{TaskJson}
use go_agent_chat_server.Service.Chat.{ChatEnv}
use go_agent_chat_server.Service.AsyncChat.{AsyncChatService}
use go_agent_chat_server.Worker.Loop.{
  LoopState, started, finished, Step, receive, start, finish, stop, leave, Reach,
}
use go_agent_chat_server.Worker.Loop.Safety.{
  held_list, settled_bodies, not_nil, empty_list, IsSafe, Step-IsSafe, Reach-IsSafe,
}

-- main has returned with no task running, and the deliveries `received` are those that were
-- settled.
abbrev pub HasReturned : {S : Type 0} → List Text → LoopState S → Type 0
HasReturned received v =
    (v.returned ≡ true) × (v.running ≡ []) × Perm (settled_bodies v.settled) received

all_settled :
    {S : Type 0} {cap : ℕ} (w : LoopState S)
    → w.running ≡ []
    → w.stopping ≡ true
    → IsSafe cap w
    → Perm (settled_bodies w.settled) w.received
all_settled w ended stopping safe =
    let known =
      subst (λ k. Perm (settled_bodies w.settled ++ (held_list k ++ w.running)) w.received)
        (safe.waiting stopping) safe.accounted in
    let settled = subst (λ r. Perm (settled_bodies w.settled ++ r) w.received) ended known in
    subst (λ l. Perm l w.received) (append-nil (settled_bodies w.settled)) settled

one_less :
    (before : List Text) (body : Text) (after running : List Text) (n : ℕ)
    → running ≡ before ++ body ∷ after
    → length running ≡ suc n
    → length (before ++ after) ≡ n
one_less before body after running n split count =
    omega (
      arith,
      length-append before after,
      length-append before (body ∷ after),
      ap length split,
      count,
    )

module _ {S M : Type 0} (o : ChatEnv S M) (a : AsyncChatService S) (json : TaskJson) (cap : ℕ) where
  -- On every path, main returns after finitely many steps, and always has a step to take before.
  pub data Returns (received : List Text) : LoopState S → Type 0 where
    now : {w : LoopState S} → HasReturned received w → Returns received w
    later :
        {w : LoopState S} (v : LoopState S)
        → Step o a json cap w v
        → ((u : LoopState S) → Step o a json cap w u → Returns received u)
        → Returns received w

  -- What is known of a state in wg.Wait(), with `n` tasks running.
  record IsWaiting (n : ℕ) (w : LoopState S) : Type 0 where
    stopping : w.stopping ≡ true
    inside : w.returned ≡ false
    count : length w.running ≡ n
    safe : IsSafe cap w

  unlocked :
      {received : List Text} {w u : LoopState S}
      → IsWaiting 0 w
      → w.received ≡ received
      → Step o a json cap w u
      → Returns received u
  unlocked h same (receive body going free e) = absurd (cc (going, h.stopping))
  unlocked h same (start body held room e) = absurd (cc (held, h.safe.waiting h.stopping))
  unlocked h same (finish before body after split e) =
      absurd (not_nil before body after (sym split ∙ empty_list _ h.count))
  unlocked h same (stop going free e) = absurd (cc (going, h.stopping))
  unlocked {received} {w} h same (leave stopping here_still none_left e) =
      subst (Returns received) (sym e) (
        now (
          refl,
          empty_list _ h.count,
          subst (Perm (settled_bodies w.settled)) same
              (all_settled w (empty_list _ h.count) stopping h.safe),
        ))

  module _ (n : ℕ) (received : List Text)
      (from : (w : LoopState S) → IsWaiting n w → w.received ≡ received → Returns received w) where
    one_task_less :
        {w u : LoopState S}
        → IsWaiting (suc n) w
        → w.received ≡ received
        → Step o a json cap w u
        → Returns received u
    unfolding finished
    one_task_less h same (receive body going free e) = absurd (cc (going, h.stopping))
    one_task_less h same (start body held room e) = absurd (cc (held, h.safe.waiting h.stopping))
    one_task_less {w} h same (finish before body after split e) = subst (Returns received) (sym e) (
        from (finished o a json w body (before ++ after))
          (record {
            stopping = h.stopping;
            inside = h.inside;
            count = one_less before body after w.running n split h.count;
            safe = Step-IsSafe o a json cap (finish before body after split refl) h.safe;
          })
          same)
    one_task_less h same (stop going free e) = absurd (cc (going, h.stopping))
    one_task_less h same (leave stopping here_still none_left e) =
        absurd (omega (arith, h.safe.wait_group, none_left, h.count))

    task_ends :
        (running : List Text) (w : LoopState S)
        → w.running ≡ running
        → IsWaiting (suc n) w
        → w.received ≡ received
        → Returns received w
    task_ends [] w e h same = absurd (omega (arith, ap length e, h.count))
    task_ends (body ∷ rest) w e h same =
        later (finished o a json w body rest) (finish [] body rest e refl)
          (λ u step. one_task_less h same step)

  waits :
      (n : ℕ) (received : List Text) (w : LoopState S)
      → IsWaiting n w
      → w.received ≡ received
      → Returns received w
  waits zero received w h same =
      later (record w { returned = true })
        (leave h.stopping h.inside (h.safe.wait_group ∙ h.count) refl)
        (λ u step. unlocked h same step)
  waits (suc n) received w h same = task_ends n received (waits n received) w.running w refl h same

  -- Where each task that runs ends at some time, main returns from every state in which it waits
  -- for its tasks: in whichever order they end, and after finitely many steps, with a step to take
  -- before. Then no task runs, and every delivery that was taken has been settled exactly once.
  pub shutdown-returns :
      (p : Process S) (w : LoopState S)
      → Reach o a json cap (started p) w
      → w.stopping ≡ true
      → w.returned ≡ false
      → Returns w.received w
  shutdown-returns p w r stopping inside =
      waits (length w.running) w.received w
        (record {
          stopping = stopping;
          inside = inside;
          count = refl;
          safe = Reach-IsSafe o a json cap p r;
        })
        refl
