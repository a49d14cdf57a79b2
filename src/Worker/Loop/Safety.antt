-- ===== src/Worker/Loop/Safety.antt =====
-- cmd/worker/main.go: how many tasks run, and what becomes of the deliveries.
use mathlib.Core.List.{Perm, perm_middle}
use mathlib.Core.List.Perm
use go_agent_chat_server.Base.{
  ℕ, ◌≤◌, true, List, [], ◌∷◌, ◌++◌, length, length-append, map, append_assoc, Option, none, some,
  ◌≡◌, ◌≢◌, refl, sym, ap, subst, ◌∙◌, arith,
}
use go_agent_chat_server.Base.Text.{Text}
use go_agent_chat_server.Metrics.{Process}
use go_agent_chat_server.Queue.ChatTask.{TaskJson}
use go_agent_chat_server.Service.Chat.{ChatEnv}
use go_agent_chat_server.Service.AsyncChat.{AsyncChatService}
use go_agent_chat_server.Worker.{Settled}
use go_agent_chat_server.Worker.Loop.{
  LoopState, started, finished, Step, receive, start, finish, stop, leave, Reach, here, next,
}

abbrev pub held_list : Option Text → List Text
held_list none = []
held_list (some body) = body ∷ []

abbrev pub settled_bodies : List (Text × Settled) → List Text
settled_bodies = map (λ e. e.0)

-- At most `cap` goroutines run, as many as there are slots taken and tasks counted in; every delivery that was taken is settled, running or held, as often
-- as it was taken; nothing is held while the loop waits to return; and nothing runs when it has.
pub record IsSafe {S : Type 0} (cap : ℕ) (w : LoopState S) : Type 0 where
  pub within : length w.running ≤ cap
  pub accounted : Perm (settled_bodies w.settled ++ (held_list w.held ++ w.running)) w.received
  pub slots : w.slots ≡ length w.running
  pub wait_group : w.wait_group ≡ length w.running
  pub waiting : w.stopping ≡ true → w.held ≡ none
  pub gone : w.returned ≡ true → (w.stopping ≡ true) × (w.running ≡ [])

pub not_nil : (before : List Text) (body : Text) (after : List Text) → before ++ body ∷ after ≢ []
not_nil [] body after = cc
not_nil (b ∷ before) body after = cc

pub empty_list : (bodies : List Text) → length bodies ≡ 0 → bodies ≡ []
empty_list [] h = refl
empty_list (b ∷ bodies) h = absurd (omega (arith, h))

regroup :
    (xs hs before after : List Text)
    → xs ++ (hs ++ (before ++ after)) ≡ ((xs ++ hs) ++ before) ++ after
regroup xs hs before after = simp append_assoc

take_out :
    (xs hs before after : List Text) (body : Text)
    → Perm (body ∷ (xs ++ (hs ++ (before ++ after)))) (xs ++ (hs ++ (before ++ body ∷ after)))
take_out xs hs before after body =
    rw (regroup xs hs before after, regroup xs hs before (body ∷ after))
      (Perm.symm (perm_middle ((xs ++ hs) ++ before) after))

module _ {S M : Type 0} (o : ChatEnv S M) (a : AsyncChatService S) (json : TaskJson) (cap : ℕ) where
  pub Step-IsSafe : {w v : LoopState S} → Step o a json cap w v → IsSafe cap w → IsSafe cap v
  unfolding finished
  Step-IsSafe {w} (receive body going free e) h = subst (IsSafe cap) (sym e) (record {
    within = h.within;
    accounted = Perm.trans (perm_middle (settled_bodies w.settled) w.running) (
        Perm.cons body (
          subst (λ k. Perm (settled_bodies w.settled ++ (held_list k ++ w.running)) w.received) free
            h.accounted));
    slots = h.slots;
    wait_group = h.wait_group;
    waiting = λ s. cc (going, s);
    gone = h.gone;
  })
  Step-IsSafe {w} (start body held room e) h = subst (IsSafe cap) (sym e) (record {
    within = omega (arith, h.slots);
    accounted =
        subst (λ k. Perm (settled_bodies w.settled ++ (held_list k ++ w.running)) w.received) held
          h.accounted;
    slots = omega (arith, h.slots);
    wait_group = omega (arith, h.wait_group);
    waiting = λ _. refl;
    gone = λ r. absurd (cc (held, h.waiting (h.gone r).0));
  })
  Step-IsSafe {w} (finish before body after split e) h = subst (IsSafe cap) (sym e) (record {
    within = omega (
      arith,
      length-append before after,
      length-append before (body ∷ after),
      ap length split,
      h.within,
    );
    accounted =
        Perm.trans (take_out (settled_bodies w.settled) (held_list w.held) before after body) (
          subst (λ r. Perm (settled_bodies w.settled ++ (held_list w.held ++ r)) w.received) split
            h.accounted);
    slots = omega (
      arith,
      length-append before after,
      length-append before (body ∷ after),
      ap length split,
      h.slots,
    );
    wait_group = omega (
      arith,
      length-append before after,
      length-append before (body ∷ after),
      ap length split,
      h.wait_group,
    );
    waiting = h.waiting;
    gone = λ r. absurd (not_nil before body after (sym split ∙ (h.gone r).1));
  })
  Step-IsSafe {w} (stop going free e) h = subst (IsSafe cap) (sym e) (record {
    within = h.within;
    accounted = h.accounted;
    slots = h.slots;
    wait_group = h.wait_group;
    waiting = λ _. free;
    gone = λ r. (refl, (h.gone r).1);
  })
  Step-IsSafe {w} (leave stopping here_still zero_left e) h = subst (IsSafe cap) (sym e) (record {
    within = h.within;
    accounted = h.accounted;
    slots = h.slots;
    wait_group = h.wait_group;
    waiting = h.waiting;
    gone = λ _. (stopping, empty_list w.running (sym h.wait_group ∙ zero_left));
  })

  started-IsSafe : (p : Process S) → IsSafe cap (started p)
  unfolding started
  started-IsSafe p = record {
    within = omega arith;
    accounted = Perm.refl [];
    slots = refl;
    wait_group = refl;
    waiting = λ s. refl;
    gone = λ r. absurd (ground arith);
  }

  -- Whatever deliveries come and in whichever order the tasks end, at most `cap` tasks run at a
  -- time, the semaphore and the wait group count just these, every delivery that was taken is
  -- settled, running or held exactly once, and main does not return while a task runs.
  pub Reach-IsSafe :
      (p : Process S) {w : LoopState S} → Reach o a json cap (started p) w → IsSafe cap w
  Reach-IsSafe p here = started-IsSafe p
  Reach-IsSafe p (next r s) = Step-IsSafe s (Reach-IsSafe p r)
