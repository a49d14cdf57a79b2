-- ===== src/Metrics/Leads.antt =====
-- What calls between counted steps lead to.
use go_agent_chat_server.Base.Int.{ℤ}
use go_agent_chat_server.Base.Exec.{Exec, Result, ok, err}
use go_agent_chat_server.Base.Exec.Leads.{Ends, Leads}
use go_agent_chat_server.Metrics.{Process, Counter, add, call}

module _ {S A : Type 0} (Q : A → S → Type 0) (E : S → Type 0) where
  outside-Ends :
      (r : Result A × S) (p : Process S)
      → Ends Q E r
      → Ends
          (λ a (q : Process S). Q a q.outside)
          (λ q. E q.outside)
          (r.0, record p { outside = r.1 })
  outside-Ends (ok a, s) p h = h
  outside-Ends (err e, s) p h = h

module _ {S A : Type 0} {P E : S → Type 0} {Q : A → S → Type 0} where
  -- A call that leaves the counters alone.
  pub call-Leads :
      (m : Exec S A)
      → Leads P m Q E
      → Leads (λ (p : Process S). P p.outside) (call m) (λ a p. Q a p.outside) (λ p. E p.outside)
  unfolding call
  call-Leads m km = record { at = λ p h. outside-Ends Q E (m p.outside) p (km.at p.outside h) }

module _ {S : Type 0} (P : S → Type 0) {E : Process S → Type 0} where
  pub add-Leads :
      (c : Counter) (k : ℤ)
      → Leads (λ (p : Process S). P p.outside) (add c k) (λ _ p. P p.outside) E
  unfolding add
  add-Leads c k = record { at = λ p h. h }
