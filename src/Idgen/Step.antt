-- ===== src/Idgen/Step.antt =====
-- One call of NextID on a valid generator: it moves on to a later state, also where the clock runs
-- backwards, and the identifier is made of that state.
use Prim.Native.Nat.{bit_and}
use go_agent_chat_server.Base.{
  ℕ, ◌+◌, ◌≤◌, ◌<◌, ◌≡◌, refl, ◌⊎◌, inl, inr, arith, Bool-cases, Option-cases, some-transfer, some,
  [], ◌∷◌, All, ◌==◌,
}
use go_agent_chat_server.Base.Bits.{bit_and-mask}
use go_agent_chat_server.Base.Int.{ℤ, pos, negsuc, ◌≤ℤ◌, ◌<ℤ◌, leb_ℤ, ltb_ℤ, eqb_ℤ}
use go_agent_chat_server.Idgen.{
  Snowflake, Readings, new_snowflake, compose, max_node_id, max_sequence, wait_next_ms, next_id,
  finish, same_ms, advance,
}
use go_agent_chat_server.Idgen.Fields.{IsInRange, compose-sum}

-- The states that a generator can be in: new, or with a last reading in range.
abbrev pub IsLast : ℤ → Type 0
IsLast t = (t ≡ negsuc 0) ⊎ IsInRange t

pub record IsValid (s : Snowflake) : Type 0 where
  pub node : s.node_id ≤ max_node_id
  pub sequence : s.sequence ≤ max_sequence
  pub last : IsLast s.last_ms

pub new_snowflake-IsValid : (node_id : ℤ) → IsValid (new_snowflake node_id)
unfolding new_snowflake
new_snowflake-IsValid (pos n) = ground arith
new_snowflake-IsValid (negsuc n) = ground arith

-- What the loop returns is a reading past the one it waits for.
wait_next_ms-past :
    (last : ℤ) (readings : Readings) {now : ℤ} {rest : Readings}
    → All IsInRange readings
    → wait_next_ms last readings ≡ some (now, rest)
    → (last <ℤ now) × IsInRange now × All IsInRange rest
unfolding wait_next_ms
wait_next_ms-past last [] h e = cc
wait_next_ms-past last (t ∷ readings) {now} {rest} h e = elim (Bool-cases (leb_ℤ t last)) [
  | inl q ↦ wait_next_ms-past last readings h.1 (rw q at e)
  | inr q ↦ ground (arith, h.1)
]

-- A later point of the generator: a later millisecond, or the same with a larger sequence number.
abbrev pub IsLater : Snowflake → Snowflake → Type 0
IsLater s t = (s.last_ms <ℤ t.last_ms) ⊎ ((s.last_ms ≡ t.last_ms) × (s.sequence < t.sequence))

-- What a call of NextID does to a valid generator.
pub record Stepped (s : Snowflake) (r : ℤ × Snowflake × Readings) : Type 0 where
  pub valid : IsValid r.1
  pub reached : IsInRange r.1.last_ms
  pub same_node : r.1.node_id ≡ s.node_id
  pub made : r.0 ≡ compose r.1.last_ms r.1.node_id r.1.sequence
  pub later : IsLater s r.1
  pub ahead : All IsInRange r.2

finish-Stepped :
    (s : Snowflake) (sequence : ℕ) (now : ℤ) (rest : Readings)
    → IsValid s
    → sequence ≤ max_sequence
    → IsInRange now
    → All IsInRange rest
    → (s.last_ms <ℤ now) ⊎ ((s.last_ms ≡ now) × (s.sequence < sequence))
    → Stepped s (finish s sequence (now, rest))
unfolding finish
finish-Stepped s sequence now rest v hs hn hr later = record {
  valid = record { node = v.node; sequence = hs; last = inr hn };
  reached = hn;
  same_node = refl;
  made = refl;
  later = later;
  ahead = hr;
}

-- After a wait the reading is new, so any sequence number goes.
waited-Stepped :
    (s : Snowflake) (sequence : ℕ) (readings : Readings) (r : ℤ × Readings)
    → IsValid s
    → sequence ≤ max_sequence
    → All IsInRange readings
    → wait_next_ms s.last_ms readings ≡ some r
    → Stepped s (finish s sequence r)
waited-Stepped s sequence readings (now, rest) v hs hr e =
    let past = wait_next_ms-past s.last_ms readings hr e in
    finish-Stepped s sequence now rest v hs past.1 past.2 (inl past.0)

next_sequence :
    (sequence : ℕ)
    → sequence ≤ max_sequence
    → (bit_and (sequence + 1) max_sequence ≡ 0)
      ⊎ (bit_and (sequence + 1) max_sequence ≡ sequence + 1)
next_sequence sequence h = ground (arith, bit_and-mask 12 (sequence + 1))

same_ms-Stepped :
    (s : Snowflake) (sequence : ℕ) (now : ℤ) (rest : Readings) {r : ℤ × Snowflake × Readings}
    → IsValid s
    → (sequence ≡ 0) ⊎ (sequence ≡ s.sequence + 1)
    → sequence ≤ max_sequence
    → IsInRange now
    → All IsInRange rest
    → s.last_ms ≡ now
    → same_ms s sequence (now, rest) ≡ some r
    → Stepped s r
unfolding same_ms
same_ms-Stepped s sequence now rest v hs small hn hr same e = elim (Bool-cases (sequence == 0)) [
  | inl wrapped ↦ elim (Option-cases (wait_next_ms s.last_ms rest)) [
    | inl stuck ↦ cc (rw (wrapped, stuck) at e)
    | inr (r', waited) ↦
        some-transfer (Stepped s) (waited-Stepped s sequence rest r' v small hr waited)
          (rw (wrapped, waited) at e)
  ]
  | inr stays ↦
      some-transfer (Stepped s)
        (finish-Stepped s sequence now rest v small hn hr (inr (same, ground arith)))
        (rw stays at e)
]

advance-Stepped :
    (s : Snowflake) (now : ℤ) (rest : Readings) {r : ℤ × Snowflake × Readings}
    → IsValid s
    → IsInRange now
    → All IsInRange rest
    → s.last_ms ≤ℤ now
    → advance s (now, rest) ≡ some r
    → Stepped s r
unfolding advance
advance-Stepped s now rest v hn hr le e = elim (Bool-cases (eqb_ℤ now s.last_ms)) [
  | inl same ↦
      same_ms-Stepped s (bit_and (s.sequence + 1) max_sequence) now rest v
        (next_sequence s.sequence v.sequence) (ground (arith, next_sequence s.sequence v.sequence))
        hn hr (ground arith) (rw same at e)
  | inr differ ↦
      some-transfer (Stepped s)
        (finish-Stepped s 0 now rest v (omega arith) hn hr (inl (ground arith))) (rw differ at e)
]

-- One call: the generator stays valid and moves on, and the identifier is made of its new state.
pub next_id-Stepped :
    (s : Snowflake) (readings : Readings) {r : ℤ × Snowflake × Readings}
    → IsValid s
    → All IsInRange readings
    → next_id s readings ≡ some r
    → Stepped s r
unfolding next_id
next_id-Stepped s [] v h e = cc
next_id-Stepped s (now ∷ rest) v h e = elim (Bool-cases (ltb_ℤ now s.last_ms)) [
  | inl back ↦ elim (Option-cases (wait_next_ms s.last_ms rest)) [
    | inl stuck ↦ cc (rw (back, stuck) at e)
    | inr ((now', rest'), waited) ↦
        let past = wait_next_ms-past s.last_ms rest h.1 waited in
        advance-Stepped s now' rest' v past.1 past.2 (omega (arith, past.0))
          (rw (back, waited) at e)
  ]
  | inr forward ↦ advance-Stepped s now rest v h.0 h.1 (ground arith) (rw forward at e)
]

-- The identifier of a state that a call has reached.
abbrev pub last_id : Snowflake → ℤ
last_id s = compose s.last_ms s.node_id s.sequence

compose_lt_at :
    (a b : ℤ) (node node' i j : ℕ)
    → node ≤ max_node_id
    → i ≤ max_sequence
    → j ≤ max_sequence
    → IsInRange a
    → IsInRange b
    → node' ≡ node
    → (a <ℤ b) ⊎ ((a ≡ b) × (i < j))
    → compose a node i <ℤ compose b node' j
compose_lt_at (negsuc m) b node node' i j hn hi hj ha hb same later = absurd (omega arith)
compose_lt_at (pos m) (negsuc n) node node' i j hn hi hj ha hb same later = absurd (omega arith)
compose_lt_at (pos m) (pos n) node node' i j hn hi hj ha hb same later =
    ground (arith, compose-sum m node i, compose-sum n node' j)

pub compose-lt :
    (s t : Snowflake)
    → IsValid s
    → IsValid t
    → IsInRange s.last_ms
    → IsInRange t.last_ms
    → t.node_id ≡ s.node_id
    → IsLater s t
    → last_id s <ℤ last_id t
compose-lt s t v w hs ht same later =
    compose_lt_at s.last_ms t.last_ms s.node_id t.node_id s.sequence t.sequence v.node v.sequence
      w.sequence hs ht same later
