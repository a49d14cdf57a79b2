-- ===== src/Idgen/Order.antt =====
-- The identifiers of one generator increase, also where the clock runs backwards.
use go_agent_chat_server.Base.{
  ℕ, zero, suc, ◌≡◌, sym, inl, inr, subst, some-transfer, Option-cases, some, List, [], ◌∷◌, All,
}
use go_agent_chat_server.Base.Int.{ℤ, ◌<ℤ◌}
use go_agent_chat_server.Idgen.{Snowflake, Readings, new_snowflake, next_id, next_ids}
use go_agent_chat_server.Idgen.Fields.{IsInRange}
use go_agent_chat_server.Idgen.Step.{
  IsValid, Stepped, last_id, next_id-Stepped, compose-lt, new_snowflake-IsValid,
}

-- Every number is larger than the one before it.
abbrev pub IsIncreasing : List ℤ → Type 0
IsIncreasing [] = Unit
IsIncreasing (x ∷ []) = Unit
IsIncreasing (x ∷ y ∷ xs) = (x <ℤ y) × IsIncreasing (y ∷ xs)

IsIncreasing-cons :
    (s : Snowflake) (id : ℤ) (s' : Snowflake) (ids : List ℤ) {rest : Readings}
    → IsValid s
    → IsInRange s.last_ms
    → Stepped s (id, s', rest)
    → IsIncreasing (last_id s' ∷ ids)
    → IsIncreasing (last_id s ∷ id ∷ ids)
IsIncreasing-cons s id s' ids v r step tail =
    subst (λ i. IsIncreasing (last_id s ∷ i ∷ ids)) (sym step.made)
      (compose-lt s s' v step.valid r step.reached step.same_node step.later, tail)

-- From a generator that has made an identifier, the next ones are larger and increase.
next_ids-IsIncreasing_from :
    (count : ℕ) (s : Snowflake) (readings : Readings) {ids : List ℤ}
    → IsValid s
    → IsInRange s.last_ms
    → All IsInRange readings
    → next_ids count s readings ≡ some ids
    → IsIncreasing (last_id s ∷ ids)
unfolding next_ids
next_ids-IsIncreasing_from zero s readings v r h e =
    some-transfer (λ l. IsIncreasing (last_id s ∷ l)) {x = []} tt e
next_ids-IsIncreasing_from (suc count) s readings v r h e =
    elim (Option-cases (next_id s readings)) [
      | inl stuck ↦ cc (rw (stuck, next_ids) at e)
      | inr ((id, s', rest), made) ↦ elim (Option-cases (next_ids count s' rest)) [
        | inl stuck ↦ cc (rw (made, stuck, next_ids) at e)
        | inr (ids', more) ↦
            let step = next_id-Stepped s readings v h made in
            some-transfer (λ l. IsIncreasing (last_id s ∷ l))
              (IsIncreasing-cons s id s' ids' v r step
                (next_ids-IsIncreasing_from count s' rest step.valid step.reached step.ahead more))
              (rw (made, more, next_ids) at e)
      ]
    ]

-- The identifiers that one generator gives, in the order of the calls, increase strictly whatever
-- the clock does between its readings, as long as the readings are in range.
pub next_ids-IsIncreasing :
    (node_id : ℤ) (count : ℕ) (readings : Readings) {ids : List ℤ}
    → All IsInRange readings
    → next_ids count (new_snowflake node_id) readings ≡ some ids
    → IsIncreasing ids
unfolding next_ids
next_ids-IsIncreasing node_id zero readings h e = some-transfer IsIncreasing {x = []} tt e
next_ids-IsIncreasing node_id (suc count) readings h e = elim (Option-cases (next_id s readings)) [
  | inl stuck ↦ cc (rw (stuck, next_ids) at e)
  | inr ((id, s', rest), made) ↦ elim (Option-cases (next_ids count s' rest)) [
    | inl stuck ↦ cc (rw (made, stuck, next_ids) at e)
    | inr (ids', more) ↦
        let step = next_id-Stepped s readings (new_snowflake-IsValid node_id) h made in
        some-transfer IsIncreasing
          (subst (λ i. IsIncreasing (i ∷ ids')) (sym step.made)
            (next_ids-IsIncreasing_from count s' rest step.valid step.reached step.ahead more))
          (rw (made, more, next_ids) at e)
  ]
]
  where
    s : Snowflake
    s = new_snowflake node_id
