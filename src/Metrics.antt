-- ===== src/Metrics.antt =====
-- internal/metrics: the counters of the process, and the state of a process: its counters and
-- everything outside.
pub mod Leads
use mathlib.Core.Logic.{ite}
use go_agent_chat_server.Base.{ℕ, List, ◌-◌, ◌/◌, ◌≡◌, ◌≢◌, arith}
use go_agent_chat_server.Base.Int.{ℤ, pos, ◌+ℤ◌}
use go_agent_chat_server.Base.Exec.{Exec, ok}
use go_agent_chat_server.Queue.Event.{Event}

pub data Counter : Type 0 where
  http_requests_total http_errors_total : Counter
  message_cache_hit_total message_cache_miss_total message_cache_error_total : Counter
  ip_rate_limit_checked_total ip_rate_limit_blocked_total ip_rate_limit_error_total : Counter
  user_llm_rate_limit_checked_total user_llm_rate_limit_blocked_total : Counter
  user_llm_rate_limit_error_total : Counter
  llm_acquire_total llm_acquire_rejected_total llm_acquire_wait_ms_total llm_in_flight : Counter
  llm_call_total llm_call_failed_total llm_call_duration_ms_total : Counter
  sse_connections_total sse_connections_active sse_write_error_total : Counter
  rabbitmq_publish_total rabbitmq_publish_failed_total : Counter
  chat_job_created_total chat_job_published_total chat_job_publish_failed_total : Counter
  chat_job_running_total chat_job_success_total chat_job_failed_total : Counter
  chat_job_retried_total chat_job_queue_wait_ms_total : Counter

pub Counter-discrete : Discrete Counter
Counter-discrete = hlevel

-- A process: its counters, the slots of `llmLimiter` that are taken, the events whose publication
-- has been started with `go`, and everything outside.
pub record Process (S : Type 0) : Type 0 where
  pub counters : Counter → ℤ
  pub llm_slots : ℕ
  pub publishing : List Event
  pub outside : S

abbrev pub bumped : (Counter → ℤ) → Counter → ℤ → Counter → ℤ
bumped counters c n d = ite (Counter-discrete d c) (counters d +ℤ n) (counters d)

pub bumped_self :
    (counters : Counter → ℤ) (c : Counter) (k : ℤ) → bumped counters c k c ≡ counters c +ℤ k
bumped_self counters c k = elim (Counter-discrete c c) [
  | yes e ↦ ground arith
  | no ne ↦ ground arith
]

pub bumped_other :
    (counters : Counter → ℤ) (c d : Counter) (k : ℤ) → d ≢ c → bumped counters c k d ≡ counters d
bumped_other counters c d k ne = elim (Counter-discrete d c) [
  | yes e ↦ absurd (ne e)
  | no _ ↦ ground arith
]

-- DurationMs(time.Since(start)), with both readings of the clock in nanoseconds.
unfoldable pub duration_ms : ℕ → ℕ → ℤ
duration_ms start now = pos ((now - start) / 1000000)

module _ {S : Type 0} where
  -- metrics.C.Add(n)
  unfoldable pub add : Counter → ℤ → Exec (Process S) (Unit {0})
  add c n p = (ok tt, record p { counters = bumped p.counters c n })

module _ {S A : Type 0} where
  -- A call that leaves the counters alone.
  unfoldable pub call : Exec S A → Exec (Process S) A
  call m p = let (r, s) = m p.outside in (r, record p { outside = s })
