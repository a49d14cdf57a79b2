-- ===== src/Cache/RateLimit.antt =====
-- internal/cache/llm_rate_limit.go
use go_agent_chat_server.Base.{ℕ, ◌*◌, Bool, true, ◌++◌, if◌then◌else◌}
use go_agent_chat_server.Base.Text.{Text, codes}
use go_agent_chat_server.Base.Int.{ℤ, pos, leb_ℤ, pos_part}
use go_agent_chat_server.Base.Exec.{Exec, pure, ◌>>=◌}
use go_agent_chat_server.Cache.{Redis}

module _ {S : Type 0} (redis : Redis S) where
  -- `window` is in milliseconds. The result is (allowed, count).
  unfoldable pub allow_user_llm_call : Text → ℤ → ℤ → Exec S (Bool × ℕ)
  unfolding codes
  allow_user_llm_call user_id max_requests window =
      let window_ms = if leb_ℤ window (pos 0) then 60 * 1000 else pos_part window in
      if leb_ℤ max_requests (pos 0) then pure (true, 0) else do
        count ← redis.incr_window (codes "rate_limit:llm:user:" ++ user_id) window_ms
        pure (leb_ℤ (pos count) max_requests, count)
