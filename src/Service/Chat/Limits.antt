-- ===== src/Service/Chat/Limits.antt =====
-- internal/service/chat_service.go: the slots for model calls and the rate limit of a user.
use go_agent_chat_server.Base.{ℕ, ◌+◌, ◌-◌, ltb, if◌then◌else◌}
use go_agent_chat_server.Base.Text.{Text}
use go_agent_chat_server.Base.Int.{pos, negsuc}
use go_agent_chat_server.Base.Exec.{
  Exec, too_many_requests, Result, ok, err, pure, fail, attempt, on_error, ◌>>◌,
}
use go_agent_chat_server.Metrics.{
  Process, Counter, add, call, duration_ms, llm_acquire_total, llm_acquire_rejected_total,
  llm_acquire_wait_ms_total, llm_in_flight, user_llm_rate_limit_checked_total,
  user_llm_rate_limit_blocked_total, user_llm_rate_limit_error_total,
}
use go_agent_chat_server.Cache.RateLimit.{allow_user_llm_call}
use go_agent_chat_server.Service.Chat.{ChatEnv, ChatService}

module _ {S M : Type 0} (o : ChatEnv S M) (c : ChatService) where
  -- The send to llmLimiter.
  unfoldable pub take_slot : Exec (Process S) (Unit {0})
  take_slot p = (ok tt, record p { llm_slots = p.llm_slots + 1 })

  -- The receive.
  unfoldable pub free_slot : Exec (Process S) (Unit {0})
  free_slot p = (ok tt, record p { llm_slots = p.llm_slots - 1 })

  -- The `select`: its error is ctx.Err().
  unfoldable pub wait_slot : Exec (Process S) (Unit {0})
  wait_slot p =
      let (e, s) = o.done p.outside in
      if ltb p.llm_slots c.max_concurrent_llm
      then call o.slot_or_done p
      else (err e, record p { outside = s })

  -- metrics.….Add(metrics.DurationMs(time.Since(start)))
  unfoldable pub add_elapsed : Counter → ℕ → Exec (Process S) (Unit {0})
  add_elapsed counter start p = add counter (duration_ms start (o.env.db.now p.outside)) p

  -- The two cases of the `select`.
  unfoldable pub acquire_after : ℕ → Result (Unit {0}) × Process S → Result (Unit {0}) × Process S
  unfolding take_slot add_elapsed
  acquire_after start waited =
      attempt waited (λ e. do add llm_acquire_rejected_total (pos 1); fail e)
        λ _. do take_slot; add_elapsed llm_acquire_wait_ms_total start; add llm_in_flight (pos 1)

  -- acquireLLM from the reading of the clock on.
  unfoldable pub acquire_from : ℕ → Exec (Process S) (Unit {0})
  unfolding wait_slot acquire_after
  acquire_from start = do add llm_acquire_total (pos 1); λ p. acquire_after start (wait_slot p)

  unfoldable pub acquire_llm : Exec (Process S) (Unit {0})
  unfolding acquire_from
  acquire_llm p = acquire_from (o.env.db.now p.outside) p

  -- The function that acquireLLM returns.
  unfoldable pub release : Exec (Process S) (Unit {0})
  unfolding free_slot
  release = do free_slot; add llm_in_flight (negsuc 0)

  -- `defer release()`: it runs behind the rest of the function on every path.
  unfoldable pub and_release :
      {R : Type 0} → (Process S → R × Process S) → Process S → R × Process S
  unfolding release
  and_release m p = let (r, q) = m p in (r, (release q).1)

  unfoldable pub check_user_llm_rate_limit : Text → Exec (Process S) (Unit {0})
  unfolding allow_user_llm_call
  check_user_llm_rate_limit user_id = do
    add user_llm_rate_limit_checked_total (pos 1)
    on_error
        (call
          (allow_user_llm_call o.env.redis user_id c.user_llm_rate_limit c.user_llm_rate_window))
        (λ e. do add user_llm_rate_limit_error_total (pos 1); fail e)
        λ (allowed, _).
          if allowed
          then pure tt
          else do add user_llm_rate_limit_blocked_total (pos 1); fail too_many_requests
