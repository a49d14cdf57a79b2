-- ===== src/Service/Chat/Slots.antt =====
-- internal/service/chat_service.go: the slots that are taken and the count of the calls in flight,
-- which the calls on messages leave alone.
pub mod Acquire
pub mod Answers
pub mod Streams
pub mod Sharing
use go_agent_chat_server.Base.{
  ℕ, ◌+◌, ◌-◌, ◌≡◌, refl, ◌∙◌, ◌≢◌, Bool, true, false, if◌then◌else◌, arith, ap, List, Option, none,
  some,
}
use go_agent_chat_server.Base.Text.{Text}
use go_agent_chat_server.Base.Int.{ℤ, pos, negsuc, ◌+ℤ◌}
use go_agent_chat_server.Base.Exec.{Exec, Err, Result}
use go_agent_chat_server.Base.Exec.Keeps.{Keeps, keeps_rules}
use go_agent_chat_server.Metrics.{
  Process, Counter, Counter-discrete, bumped, bumped_other, add, call, llm_in_flight,
  sse_connections_active,
}
use go_agent_chat_server.Model.{Message}
use go_agent_chat_server.Service.{Env}
use go_agent_chat_server.Service.Message.{
  check_session, check_ids, create_message, list_from_db, cached_or_db, list_messages,
  search_messages,
}

-- `n` slots are taken, and the counter of the calls in flight reads `z`, that of the open
-- streams `w`.
pub record HasSlots {S : Type 0} (n : ℕ) (z w : ℤ) (p : Process S) : Type 0 where
  pub slots : p.llm_slots ≡ n
  pub in_flight : p.counters llm_in_flight ≡ z
  pub streams : p.counters sse_connections_active ≡ w

abbrev pub other : Counter → Bool
other llm_in_flight = false
other sse_connections_active = false
other _ = true

unmoved :
    {S : Type 0} (p : Process S) (c : Counter) (k : ℤ)
    → other c ≡ true
    → (bumped p.counters c k llm_in_flight ≡ p.counters llm_in_flight)
      × (bumped p.counters c k sse_connections_active ≡ p.counters sse_connections_active)
unmoved p c k o = (
  bumped_other p.counters c llm_in_flight k (λ e. ground arith),
  bumped_other p.counters c sse_connections_active k (λ e. ground arith),
)

module _ {S : Type 0} {n : ℕ} {z w : ℤ} where
  pub add-HasSlots :
      (c : Counter) (k : ℤ) → other c ≡ true → Keeps (HasSlots {S = S} n z w) (add c k)
  unfolding add
  add-HasSlots c k o = record {
    at = λ p h. record {
      slots = h.slots;
      in_flight = (unmoved p c k o).0 ∙ h.in_flight;
      streams = (unmoved p c k o).1 ∙ h.streams;
    };
  }

  pub call-HasSlots : {A : Type 0} (m : Exec S A) → Keeps (HasSlots n z w) (call m)
  unfolding call
  call-HasSlots m = record {
    at = λ p h. record { slots = h.slots; in_flight = h.in_flight; streams = h.streams };
  }

pub ruleset calls = (keeps_rules, call-HasSlots, add-HasSlots, refl)

module _ {S : Type 0} (env : Env S) {n : ℕ} {z w : ℤ} (user_id session_id : Text) where
  check_ids-HasSlots : Keeps (HasSlots n z w) (check_ids env user_id session_id)
  unfolding check_ids
  check_ids-HasSlots = search keeps_rules

  check_session-HasSlots : Keeps (HasSlots n z w) (check_session env user_id session_id)
  unfolding check_session
  check_session-HasSlots = search calls

  pub create_message-HasSlots :
      (role content : Text)
      → Keeps (HasSlots n z w) (create_message env user_id session_id role content)
  unfolding create_message
  create_message-HasSlots role content =
      search (calls, check_session-HasSlots, check_ids-HasSlots) depth 16

  list_from_db-HasSlots : Keeps (HasSlots n z w) (list_from_db env session_id)
  unfolding list_from_db
  list_from_db-HasSlots = search calls depth 16

  cached_or_db-HasSlots :
      (cached : Option (List Message)) → Keeps (HasSlots n z w) (cached_or_db env session_id cached)
  unfolding cached_or_db
  cached_or_db-HasSlots none = list_from_db-HasSlots
  cached_or_db-HasSlots (some messages) = search calls depth 16

  pub list_messages-HasSlots : Keeps (HasSlots n z w) (list_messages env user_id session_id)
  unfolding list_messages
  list_messages-HasSlots =
      search
        (
          calls, check_session-HasSlots, check_ids-HasSlots, list_from_db-HasSlots,
          cached_or_db-HasSlots,
        )
        depth 16

  pub search_messages-HasSlots :
      (keyword : Text) (limit : ℤ)
      → Keeps (HasSlots n z w) (search_messages env user_id session_id keyword limit)
  unfolding search_messages
  search_messages-HasSlots keyword limit =
      search (calls, check_session-HasSlots, check_ids-HasSlots) depth 16
