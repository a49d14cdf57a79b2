-- ===== src/Idgen/Tests.antt =====
-- Runs of the generator, and the theorems at them.
use go_agent_chat_server.Base.{
  ℕ, ◌≡◌, ◌≢◌, refl, inl, none, some, ◌+◌, ◌/◌, ◌%◌, ◌^◌, ◌<◌, [], ◌∷◌, arith,
}
use go_agent_chat_server.Base.Int.{pos, negsuc}
use go_agent_chat_server.Idgen.{Readings, new_snowflake, next_id, next_ids, compose}
use go_agent_chat_server.Idgen.Fields.{epoch_ms, compose-fields}
use go_agent_chat_server.Idgen.Order.{next_ids-IsIncreasing, IsIncreasing}
use go_agent_chat_server.Idgen.Waiting.{next_id-returns}

-- A clock that stands still, steps back and goes on.
abbrev clock : Readings
clock = pos 1704067200005 ∷ pos 1704067200005 ∷ pos 1704067200003 ∷ pos 1704067200006 ∷ []

-- The node number 2000 is out of range, so it is 1.
first_ids :
    next_ids 3 (new_snowflake (pos 2000)) clock
    ≡ some (pos 20975616 ∷ pos 20975617 ∷ pos 25169920 ∷ [])
unfolding next_ids next_id new_snowflake compose
first_ids = refl

next_ids-IsIncreasing_example : IsIncreasing (pos 20975616 ∷ pos 20975617 ∷ pos 25169920 ∷ [])
next_ids-IsIncreasing_example = next_ids-IsIncreasing (pos 2000) 3 clock (omega arith) first_ids

next_id-returns_example : next_id (new_snowflake (negsuc 4)) clock ≢ none
unfolding new_snowflake
next_id-returns_example = next_id-returns (new_snowflake (negsuc 4)) clock (inl (omega arith))

compose-fields_example :
    (id : ℕ) × (compose (pos 1704067200005) 3 9 ≡ pos id)
    × (id < 2 ^ 63)
    × (id / 2 ^ 22 + epoch_ms ≡ 1704067200005)
    × (id / 2 ^ 12 % 2 ^ 10 ≡ 3)
    × (id % 2 ^ 12 ≡ 9)
compose-fields_example = compose-fields 1704067200005 3 9 (omega arith) (omega arith) (omega arith)
