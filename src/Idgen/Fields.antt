-- ===== src/Idgen/Fields.antt =====
-- The layout of an identifier: its timestamp, node and sequence fields.
use Prim.Native.Nat.{bit_or}
use go_agent_chat_server.Base.{ℕ, ◌+◌, ◌-◌, ◌*◌, ◌/◌, ◌%◌, ◌^◌, ◌≤◌, ◌<◌, ◌≡◌, arith}
use go_agent_chat_server.Base.Bits.{bit_or-field}
use go_agent_chat_server.Base.Int.{ℤ, pos, ◌≤ℤ◌, ◌<ℤ◌}
use go_agent_chat_server.Idgen.{
  compose, max_node_id, max_sequence, node_bits, sequence_bits, node_shift, timestamp_shift,
}

-- The milliseconds of the epoch, as a number.
abbrev pub epoch_ms : ℕ
epoch_ms = 1704067200000

-- From 2024 on, for the 2 ^ 41 milliseconds that the field holds (up to the year 2093).
abbrev pub IsInRange : ℤ → Type 0
IsInRange t = (pos epoch_ms ≤ℤ t) × (t <ℤ pos (epoch_ms + 2 ^ 41))

or_fields :
    (t node sequence : ℕ)
    → node ≤ max_node_id
    → sequence ≤ max_sequence
    → bit_or (bit_or (t * 2 ^ 22) (node * 2 ^ 12)) sequence ≡ t * 2 ^ 22 + node * 2 ^ 12 + sequence
or_fields t node sequence hn hs =
    ground (arith, bit_or-field 22 t (node * 2 ^ 12), bit_or-field 12 (t * 2 ^ 10 + node) sequence)

pub compose-sum :
    (n node sequence : ℕ)
    → IsInRange (pos n)
    → node ≤ max_node_id
    → sequence ≤ max_sequence
    → compose (pos n) node sequence ≡ pos ((n - epoch_ms) * 2 ^ 22 + node * 2 ^ 12 + sequence)
unfolding compose
compose-sum n node sequence h hn hs = ground (arith, or_fields (n - epoch_ms) node sequence)

-- From a reading in range, a node of at most 10 bits and a sequence number of at most 12 bits, an
-- identifier is a number below 2 ^ 63 whose bits give back the timestamp, the node and the
-- sequence.
pub compose-fields :
    (n node sequence : ℕ)
    → IsInRange (pos n)
    → node ≤ max_node_id
    → sequence ≤ max_sequence
    → (id : ℕ) × (compose (pos n) node sequence ≡ pos id)
      × (id < 2 ^ 63)
      × (id / 2 ^ timestamp_shift + epoch_ms ≡ n)
      × (id / 2 ^ node_shift % 2 ^ node_bits ≡ node)
      × (id % 2 ^ sequence_bits ≡ sequence)
compose-fields n node sequence h hn hs = (
  (n - epoch_ms) * 2 ^ 22 + node * 2 ^ 12 + sequence,
  compose-sum n node sequence h hn hs,
  omega arith,
  omega arith,
  omega arith,
  omega arith,
)
