-- ===== src/Service/Chat/Slots/Acquire.antt =====
-- internal/service/chat_service.go: acquireLLM and the function that it returns.
use go_agent_chat_server.Base.{
  ℕ, ◌+◌, ◌-◌, ◌≡◌, refl, ap, ◌∙◌, true, Bool-cases, inl, inr, ltb, arith,
}
use go_agent_chat_server.Base.Text.{Text}
use go_agent_chat_server.Base.Int.{ℤ, pos, negsuc, ◌+ℤ◌}
use go_agent_chat_server.Base.Exec.{Exec, Err, Result, ok, err, continue, ◌>>◌}
use go_agent_chat_server.Base.Exec.Keeps.{Keeps}
use go_agent_chat_server.Metrics.{
  bumped_self, bumped_other, Process, Counter, add, llm_in_flight, llm_acquire_total,
  llm_acquire_rejected_total, llm_acquire_wait_ms_total,
}
use go_agent_chat_server.Llm.Stream.{Streamed, or_stop, stopped_or}
use go_agent_chat_server.Service.Chat.{ChatEnv, ChatService}
use go_agent_chat_server.Service.Chat.Limits.{
  take_slot, free_slot, acquire_after, wait_slot, add_elapsed, acquire_from, acquire_llm, release,
  and_release, check_user_llm_rate_limit,
}
use go_agent_chat_server.Service.Chat.Slots.{HasSlots, other, calls, add-HasSlots, call-HasSlots}

module _ {S M : Type 0} (o : ChatEnv S M) (c : ChatService) {n : ℕ} {z w : ℤ} where
  pub check_user_llm_rate_limit-HasSlots :
      (user_id : Text) → Keeps (HasSlots n z w) (check_user_llm_rate_limit o c user_id)
  unfolding check_user_llm_rate_limit
  check_user_llm_rate_limit-HasSlots user_id = search calls depth 16

  pub add_elapsed-HasSlots :
      (counter : Counter) (start : ℕ)
      → other counter ≡ true
      → Keeps (HasSlots n z w) (add_elapsed o c counter start)
  unfolding add_elapsed
  add_elapsed-HasSlots counter start is_other = record {
    at = λ p h. (add-HasSlots counter _ is_other).at p h;
  }

  wait_slot-HasSlots : Keeps (HasSlots n z w) (wait_slot o c)
  unfolding wait_slot
  wait_slot-HasSlots = record {
    at = λ p h. elim (Bool-cases (ltb p.llm_slots c.max_concurrent_llm)) [
      | inl free ↦ rw free ((call-HasSlots o.slot_or_done).at p h)
      | inr full ↦
          rw full (record { slots = h.slots; in_flight = h.in_flight; streams = h.streams })
    ];
  }

  taken : (p : Process S) → HasSlots n z w p → HasSlots (n + 1) z w (take_slot o c p).1
  unfolding take_slot
  taken p h = record {
    slots = ap (λ k. k + 1) h.slots;
    in_flight = h.in_flight;
    streams = h.streams;
  }

  counted_in :
      (p : Process S) → HasSlots n z w p → HasSlots n (z +ℤ pos 1) w (add llm_in_flight (pos 1) p).1
  unfolding add
  counted_in p h = record {
    slots = h.slots;
    in_flight = bumped_self p.counters llm_in_flight (pos 1) ∙ ap (λ x. x +ℤ pos 1) h.in_flight;
    streams = bumped_other p.counters _ _ (pos 1) (λ e. ground arith) ∙ h.streams;
  }

-- After the wait, with or without the slot.
pub data Acquired {S : Type 0} (n : ℕ) (z w : ℤ) : Result (Unit {0}) × Process S → Type 0 where
  acquired : {p : Process S} → HasSlots (n + 1) (z +ℤ pos 1) w p → Acquired n z w (ok tt, p)
  refused : {e : Err} {p : Process S} → HasSlots n z w p → Acquired n z w (err e, p)

pub add_back : (z : ℤ) → (z +ℤ pos 1) +ℤ negsuc 0 ≡ z
add_back (pos k) = ground arith
add_back (negsuc k) = ground arith

module _ {S M : Type 0} (o : ChatEnv S M) (c : ChatService) {n : ℕ} {z w : ℤ} where
  after_wait :
      (start : ℕ) (r : Result (Unit {0})) (q : Process S)
      → HasSlots n z w q
      → Acquired n z w (acquire_after o c start (r, q))
  unfolding acquire_after add
  after_wait start (err e) q h =
      refused ((add-HasSlots llm_acquire_rejected_total (pos 1) refl).at q h)
  after_wait start (ok _) q h =
      let q1 = (take_slot o c q).1 in
      let q2 = (add_elapsed o c llm_acquire_wait_ms_total start q1).1 in
      acquired (
        counted_in o c q2
          ((add_elapsed-HasSlots o c llm_acquire_wait_ms_total start refl).at q1 (taken o c q h)))

  acquire_llm-at : (p : Process S) → HasSlots n z w p → Acquired n z w (acquire_llm o c p)
  unfolding acquire_llm acquire_from add
  acquire_llm-at p h =
      let start = o.env.db.now p.outside in
      let q = (add llm_acquire_total (pos 1) p).1 in
      after_wait start (wait_slot o c q).0 (wait_slot o c q).1
        ((wait_slot-HasSlots o c).at q ((add-HasSlots llm_acquire_total (pos 1) refl).at p h))

  release-at :
      (p : Process S) → HasSlots (n + 1) (z +ℤ pos 1) w p → HasSlots n z w (release o c p).1
  unfolding release free_slot add
  release-at p h = record {
    slots = ap (λ k. k - 1) h.slots ∙ omega arith;
    in_flight =
        bumped_self p.counters llm_in_flight (negsuc 0)
        ∙ ap (λ x. x +ℤ negsuc 0) h.in_flight
        ∙ add_back z;
    streams = bumped_other p.counters _ _ (negsuc 0) (λ e. ground arith) ∙ h.streams;
  }

  and_release-at :
      {R : Type 0} (m : Process S → R × Process S)
      → Keeps (HasSlots (n + 1) (z +ℤ pos 1) w) m
      → (p : Process S) → HasSlots (n + 1) (z +ℤ pos 1) w p
      → HasSlots n z w (and_release o c m p).1
  unfolding and_release
  and_release-at m km p h = release-at (m p).1 (km.at p h)

  -- Behind acquireLLM.
  within :
      {A : Type 0} (m : Exec (Process S) A)
      → Keeps (HasSlots (n + 1) (z +ℤ pos 1) w) m
      → (r : Result (Unit {0}) × Process S) → Acquired n z w r
      → HasSlots n z w (continue r (λ _. and_release o c m)).1
  within m km (ok _, p) (acquired h) = and_release-at m km p h
  within m km (err e, p) (refused h) = h

  within_stream :
      (answer : Text) (m : Streamed (Process S))
      → Keeps (HasSlots (n + 1) (z +ℤ pos 1) w) m
      → (r : Result (Unit {0}) × Process S) → Acquired n z w r
      → HasSlots n z w (stopped_or answer (λ e. e) r (λ _. and_release o c m)).1
  within_stream answer m km (ok _, p) (acquired h) = and_release-at m km p h
  within_stream answer m km (err e, p) (refused h) = h

  pub Keeps-slot :
      {A : Type 0} (m : Exec (Process S) A)
      → Keeps (HasSlots (n + 1) (z +ℤ pos 1) w) m
      → Keeps (HasSlots n z w) (acquire_llm o c >> and_release o c m)
  Keeps-slot m km = record { at = λ p h. within m km (acquire_llm o c p) (acquire_llm-at p h) }

  pub Keeps-stream_slot :
      (answer : Text) (m : Streamed (Process S))
      → Keeps (HasSlots (n + 1) (z +ℤ pos 1) w) m
      → Keeps (HasSlots n z w) (or_stop answer (λ e. e) (acquire_llm o c) (λ _. and_release o c m))
  Keeps-stream_slot answer m km = record {
    at = λ p h. within_stream answer m km (acquire_llm o c p) (acquire_llm-at p h);
  }
