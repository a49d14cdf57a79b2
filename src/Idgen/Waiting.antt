-- ===== src/Idgen/Waiting.antt =====
-- A call of NextID returns as soon as the clock passes the last reading.
use go_agent_chat_server.Base.{
  ℕ, true, false, ◌≡◌, ◌≢◌, inl, inr, ◌⊎◌, Bool-cases, none, some, [], ◌∷◌, arith, ◌==◌,
}
use go_agent_chat_server.Base.Int.{ℤ, ◌<ℤ◌, leb_ℤ, ltb_ℤ, eqb_ℤ}
use go_agent_chat_server.Idgen.{Snowflake, Readings, wait_next_ms, next_id, advance, same_ms}

-- Some reading is past `last`.
abbrev pub Passes : ℤ → Readings → Type 0
Passes last [] = ⊥
Passes last (now ∷ rest) = (last <ℤ now) ⊎ Passes last rest

Passes-later :
    (last now : ℤ) (rest : Readings)
    → leb_ℤ now last ≡ true
    → Passes last (now ∷ rest)
    → Passes last rest
Passes-later last now rest q (inl p) = absurd (ground arith)
Passes-later last now rest q (inr p) = p

wait_next_ms-returns :
    (last : ℤ) (readings : Readings)
    → Passes last readings
    → (now : ℤ) × (rest : Readings) × (wait_next_ms last readings ≡ some (now, rest))
      × (last <ℤ now)
unfolding wait_next_ms
wait_next_ms-returns last [] h = absurd h
wait_next_ms-returns last (now ∷ rest) h = elim (Bool-cases (leb_ℤ now last)) [
  | inl q ↦ rw q (wait_next_ms-returns last rest (Passes-later last now rest q h))
  | inr q ↦ (now, rest, rw q, ground arith)
]

-- A reading that differs from the last one is taken at once.
advance-returns :
    (s : Snowflake) (now : ℤ) (rest : Readings)
    → eqb_ℤ now s.last_ms ≡ false
    → advance s (now, rest) ≢ none
unfolding advance
advance-returns s now rest differ = rw differ (cc)

same_ms-returns :
    (s : Snowflake) (sequence : ℕ) (now : ℤ) (rest : Readings)
    → Passes s.last_ms rest
    → same_ms s sequence (now, rest) ≢ none
unfolding same_ms
same_ms-returns s sequence now rest p =
    let (now', rest', waited, past) = wait_next_ms-returns s.last_ms rest p in
    elim (Bool-cases (sequence == 0)) [
      | inl wrapped ↦ rw (wrapped, waited) (cc)
      | inr stays ↦ rw stays (cc)
    ]

-- A call of NextID returns an identifier if some reading of the clock is past the last one: neither
-- a clock that runs backwards nor a used-up millisecond makes it wait for more than that.
pub next_id-returns :
    (s : Snowflake) (readings : Readings) → Passes s.last_ms readings → next_id s readings ≢ none
unfolding next_id
next_id-returns s [] p = absurd p
next_id-returns s (now ∷ rest) p = elim (Bool-cases (ltb_ℤ now s.last_ms)) [
  | inl back ↦
      let (now', rest', waited, past) =
        wait_next_ms-returns s.last_ms rest (Passes-later s.last_ms now rest (ground arith) p) in
      rw (back, waited) (advance-returns s now' rest' (ground arith))
  | inr forward ↦ elim (Bool-cases (eqb_ℤ now s.last_ms)) [
    | inl same ↦
        rw (forward, advance, same)
          (same_ms-returns s _ now rest (Passes-later s.last_ms now rest (ground arith) p))
    | inr differ ↦ rw forward (advance-returns s now rest differ)
  ]
]
