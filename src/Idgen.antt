-- ===== src/Idgen.antt =====
-- internal/pkg/idgen/snowflake.go. A method that mutates `*Snowflake` returns the new record. The
-- wall clock is the list of the milliseconds that the calls of `currentMs` read, one after another;
-- `none` means that the list ended while a call was still waiting.
pub mod Step
pub mod Order
pub mod Fields
pub mod Waiting
mod Tests
use Prim.Native.Nat.{bit_and, bit_or}
use go_agent_chat_server.Base.{
  ℕ, ◌+◌, ◌-◌, ◌*◌, ◌%◌, ◌^◌, zero, suc, Bool, true, false, ◌||◌, Option, none, some, List, [], ◌∷◌,
  ==_iff, ◌==◌, if◌then◌else◌,
}
use go_agent_chat_server.Base.Int.{ℤ, pos, negsuc, ◌-ℤ◌, ltb_ℤ, leb_ℤ, eqb_ℤ, word64, int64}
use go_agent_chat_server.Base.Text.{Text}
use go_agent_chat_server.Base.Decimal.{format_int}

-- 2024-01-01 00:00:00 UTC in milliseconds
abbrev pub custom_epoch : ℤ
custom_epoch = pos 1704067200000

abbrev pub node_bits : ℕ
node_bits = 10

abbrev pub sequence_bits : ℕ
sequence_bits = 12

-- -1 ^ (-1 << nodeBits)
abbrev pub max_node_id : ℕ
max_node_id = 2 ^ node_bits - 1

abbrev pub max_sequence : ℕ
max_sequence = 2 ^ sequence_bits - 1

abbrev pub node_shift : ℕ
node_shift = sequence_bits

abbrev pub timestamp_shift : ℕ
timestamp_shift = node_bits + sequence_bits

-- `node_id` and `sequence` are int64 and never negative: `new_snowflake` and the mask see to it.
pub record Snowflake : Type 0 where
  pub node_id : ℕ
  pub last_ms : ℤ
  pub sequence : ℕ

abbrev clamp_node : ℤ → ℕ
clamp_node (pos n) = if leb_ℤ (pos n) (pos max_node_id) then n else 1
clamp_node (negsuc n) = 1

unfoldable pub new_snowflake : ℤ → Snowflake
new_snowflake node_id = record { node_id = clamp_node node_id; last_ms = negsuc 0; sequence = 0 }

-- The readings of the clock that are still to come.
abbrev pub Readings : Type 0
Readings = List ℤ

-- One call of currentMs.
abbrev pub current_ms : Readings → Option (ℤ × Readings)
current_ms [] = none
current_ms (now ∷ rest) = some (now, rest)

-- The loop sleeps for a millisecond between two readings.
unfoldable pub wait_next_ms : ℤ → Readings → Option (ℤ × Readings)
wait_next_ms last_ms [] = none
wait_next_ms last_ms (now ∷ rest) =
    let more = wait_next_ms last_ms rest in if leb_ℤ now last_ms then more else some (now, rest)

-- v << shift on the bits of an int64
abbrev pub shl64 : ℕ → ℕ → ℕ
shl64 v shift = v * 2 ^ shift % 2 ^ 64

-- ((now - customEpoch) << timestampShift) | (nodeID << nodeShift) | sequence
unfoldable pub compose : ℤ → ℕ → ℕ → ℤ
compose now node_id sequence = int64 (
    bit_or
      (bit_or (shl64 (word64 (now -ℤ custom_epoch)) timestamp_shift) (shl64 node_id node_shift))
      sequence)

-- `s.lastMs = now` and the identifier.
finish : Snowflake → ℕ → ℤ × Readings → ℤ × Snowflake × Readings
finish s sequence (now, rest) =
    (compose now s.node_id sequence, record s { last_ms = now; sequence = sequence }, rest)

-- What follows `s.sequence = (s.sequence + 1) & maxSequence`: on 0 the millisecond is used up.
same_ms : Snowflake → ℕ → ℤ × Readings → Option (ℤ × Snowflake × Readings)
same_ms s sequence (now, rest) =
    if sequence == 0
    then elim (wait_next_ms s.last_ms rest) [ none ↦ none | some r ↦ some (finish s sequence r) ]
    else some (finish s sequence (now, rest))

-- The second half of NextID, after a clock that ran backwards was waited for.
advance : Snowflake → ℤ × Readings → Option (ℤ × Snowflake × Readings)
advance s (now, rest) =
    if eqb_ℤ now s.last_ms
    then same_ms s (bit_and (s.sequence + 1) max_sequence) (now, rest)
    else some (finish s 0 (now, rest))

unfoldable pub next_id : Snowflake → Readings → Option (ℤ × Snowflake × Readings)
unfolding finish same_ms advance wait_next_ms
next_id s [] = none
next_id s (now ∷ rest) =
    if ltb_ℤ now s.last_ms
    then elim (wait_next_ms s.last_ms rest) [ none ↦ none | some r ↦ advance s r ]
    else advance s (now, rest)

unfoldable pub next_string : Snowflake → Readings → Option (Text × Snowflake × Readings)
next_string s readings = elim (next_id s readings) [
  | none ↦ none
  | some (id, s', rest) ↦ some (format_int id, s', rest)
]

-- `count` calls in a row: the identifiers in the order of the calls. The mutex makes concurrent
-- calls such a row.
unfoldable pub next_ids : ℕ → Snowflake → Readings → Option (List ℤ)
next_ids zero s readings = some []
next_ids (suc count) s readings = elim (next_id s readings) [
  | none ↦ none
  | some (id, s', rest) ↦ elim (next_ids count s' rest) [ none ↦ none | some ids ↦ some (id ∷ ids) ]
]
