-- ===== src/Service/Chat/Slots/Sharing.antt =====
-- internal/service/chat_service.go: the limiter of the model's calls under many requests.
use go_agent_chat_server.Base.{
  ℕ, suc, ◌+◌, ◌-◌, ◌≤◌, ◌<◌, ◌≡◌, refl, subst, ◌∙◌, Bool-cases, inl, inr, ltb, arith,
}
use go_agent_chat_server.Base.Exec.{Err, Result, ok, err}
use go_agent_chat_server.Base.Exec.Leads.{Ends}
use go_agent_chat_server.Metrics.{Process, add, call}
use go_agent_chat_server.Service.Chat.{ChatEnv, ChatService}
use go_agent_chat_server.Service.Chat.Limits.{
  take_slot, free_slot, add_elapsed, acquire_after, wait_slot, acquire_from, acquire_llm, release,
}

module _ {S M : Type 0} (o : ChatEnv S M) (c : ChatService) where
  -- The uses of one limiter by requests in any order: `Sharing n p` says that the process came to
  -- `p` and that `n` of the calls of acquireLLM that succeeded have not released their slot yet.
  pub data Sharing : ℕ → Process S → Type 0 where
    idle : {p : Process S} → p.llm_slots ≡ 0 → Sharing 0 p
    granted :
        {n : ℕ} {p q : Process S} → Sharing n p → acquire_llm o c p ≡ (ok tt, q) → Sharing (suc n) q
    refused :
        {n : ℕ} {p q : Process S} {e : Err}
        → Sharing n p
        → acquire_llm o c p ≡ (err e, q)
        → Sharing n q
    given_back : {n : ℕ} {p : Process S} → Sharing (suc n) p → Sharing n (release o c p).1
    -- Anything else happens.
    elsewhere : {n : ℕ} {p q : Process S} → Sharing n p → q.llm_slots ≡ p.llm_slots → Sharing n q

  -- A slot was free and is taken, or none is taken.
  abbrev Taken : ℕ → Result (Unit {0}) × Process S → Type 0
  Taken k r =
      Ends (λ _ q. (q.llm_slots ≡ k + 1) × (k < c.max_concurrent_llm)) (λ q. q.llm_slots ≡ k) r

  after-Taken :
      (start : ℕ) (r : Result (Unit {0})) (q : Process S)
      → q.llm_slots < c.max_concurrent_llm
      → Taken q.llm_slots (acquire_after o c start (r, q))
  unfolding acquire_after take_slot add_elapsed add
  after-Taken start (ok _) q below = (refl, below)
  after-Taken start (err e) q below = refl

  acquire_llm-Taken : (p : Process S) → Taken p.llm_slots (acquire_llm o c p)
  unfolding acquire_llm acquire_from wait_slot acquire_after add call
  acquire_llm-Taken p = elim (Bool-cases (ltb p.llm_slots c.max_concurrent_llm)) [
    | inl free ↦
        let below : p.llm_slots < c.max_concurrent_llm = ground arith in
        rw free (after-Taken (o.env.db.now p.outside) _ _ below)
    | inr full ↦ rw full refl
  ]

  release-slots : (p : Process S) → (release o c p).1.llm_slots ≡ p.llm_slots - 1
  unfolding release free_slot add
  release-slots p = refl

  -- Whatever requests ask for a slot and give theirs back, and in whatever order, the slots that
  -- are taken are those of the calls that have not given theirs back, and they are at most
  -- MaxConcurrentLLM.
  pub Sharing-bounded :
      {n : ℕ} {p : Process S} → Sharing n p → (p.llm_slots ≡ n) × (n ≤ c.max_concurrent_llm)
  Sharing-bounded (idle none_taken) = (none_taken, omega arith)
  Sharing-bounded (granted {p} before taken) =
      let (same, within) = Sharing-bounded before in
      let (one_more, below) = subst (Taken p.llm_slots) taken (acquire_llm-Taken p) in
      (omega (arith, same, one_more), omega (arith, same, below))
  Sharing-bounded (refused {p} before taken) =
      let (same, within) = Sharing-bounded before in
      (subst (Taken p.llm_slots) taken (acquire_llm-Taken p) ∙ same, within)
  Sharing-bounded (given_back {p} before) =
      let (same, within) = Sharing-bounded before in
      (omega (arith, same, release-slots p), omega (arith, within))
  Sharing-bounded (elsewhere before kept) =
      let (same, within) = Sharing-bounded before in (kept ∙ same, within)
