-- ===== src/Evolution/Bounds.antt =====
-- A proposal moves a bounded share of weight between two components. It fails only when rounding takes
-- the sum of the weights over the edge of what their constructor accepts.
use evolvable_user_memory.Base.{
  tests, ℕ, ◌+◌, length, ◌-◌, ◌≡◌, ◌≢◌, ◌≤◌, ◌<◌, ◌⊎◌, inl, inr, true, false, List, [], ◌∷◌, ◌==◌,
  leb, arith, All, refl, none, some, Option-cases, Bool-cases,
}
use evolvable_user_memory.Base.Result.{ok, err, value_error}
use evolvable_user_memory.Base.Fixed.{one, percent}
use evolvable_user_memory.Common.{Uuid, Instant}
use evolvable_user_memory.Evolution.Strategy.{
  RetrievalWeights, Rounding, values_of, is_close, total, StrategySnapshot, FailureDiagnosis,
  Component, dominant_component,
}
use evolvable_user_memory.Evolution.Proposal.{
  component_eq, component_beq_iff, weight_of, donors, max_delta, delta_for, shifted, proposal,
  propose,
}
use evolvable_user_memory.Evolution.Shift.{
  room, reserve, Near, IsRounding, not_close, shifted_target, shifted_donor, total-shifted,
  shifted_other,
}
use evolvable_user_memory.Evolution.Children.{
  IsStrategy, donor-ne, length-donors, AtEdge, Proposes, make_weights-ok, make_weights-not_close,
  make_strategy-ok,
}

module _ ⦃f : Rounding⦄ (rounds : IsRounding f) (parent : StrategySnapshot)
    (sound : IsStrategy parent) (target donor : Component) (other : donor ≢ target) where
  abbrev delta : ℕ
  delta = delta_for parent.weights target donor

  abbrev next : RetrievalWeights
  next = shifted parent.weights target donor delta

  delta-le :
      (delta ≤ max_delta)
      × (weight_of parent.weights target + delta ≤ percent 60)
      × (percent 5 + delta ≤ weight_of parent.weights donor)
  unfolding delta_for
  delta-le =
      let up = room rounds (weight_of parent.weights target) (sound.high target) in
      let down =
        reserve rounds (weight_of parent.weights donor) (sound.low donor) (sound.high donor) in
      (omega arith, omega (arith, up), omega (arith, down))

  raised-Near :
      Near 1
        (f.plus (weight_of parent.weights target) delta)
        (weight_of parent.weights target + delta)
  raised-Near =
      rounds.plus-Near (weight_of parent.weights target) delta (omega (arith, sound.high target))
        (omega (arith, delta-le))

  lowered-Near :
      Near 1
        (f.minus (weight_of parent.weights donor) delta)
        (weight_of parent.weights donor - delta)
  lowered-Near =
      rounds.minus-Near (weight_of parent.weights donor) delta (omega (arith, delta-le))
        (omega (arith, sound.high donor))

  -- The weight that each component has after the shift.
  next_cases :
      (c : Component)
      → (weight_of next c ≡ f.plus (weight_of parent.weights target) delta) × (c ≡ target)
        ⊎ ((weight_of next c ≡ f.minus (weight_of parent.weights donor) delta) × (c ≡ donor)
            ⊎ (weight_of next c ≡ weight_of parent.weights c))
  next_cases c = elim (Bool-cases (c == target)) [
    | inl e ↦
        let p : c ≡ target = (component_beq_iff c target).0 e in
        inl (rw p (shifted_target parent.weights target donor delta other), p)
    | inr n ↦ elim (Bool-cases (c == donor)) [
      | inl e ↦
          let p : c ≡ donor = (component_beq_iff c donor).0 e in
          inr (inl (rw p (shifted_donor parent.weights target donor delta other), p))
      | inr m ↦ inr (
          inr (
            shifted_other parent.weights target donor delta other c
              (λ p. ground (arith, component_beq_iff c target))
              (λ p. ground (arith, component_beq_iff c donor))))
    ]
  ]

  next_in_range :
      0 < delta → (c : Component) → (percent 5 ≤ weight_of next c) × (weight_of next c ≤ percent 60)
  next_in_range some_left c =
      let le = delta-le in
      elim (next_cases c) [
        | inl (e, p) ↦
            let cap = rounds.plus_high (weight_of parent.weights target) delta le.1 in
            rw e (omega (arith, sound.low target, raised-Near, some_left), cap)
        | inr (inl (e, p)) ↦
            let floor =
              rounds.minus_low (weight_of parent.weights donor) delta (omega (arith, le))
                (omega (arith, sound.high donor)) in
            rw e (floor, omega (arith, sound.high donor, lowered-Near, some_left, le))
        | inr (inr e) ↦ rw e (sound.low c, sound.high c)
      ]

  next-total : Near 2 (total next) (total parent.weights)
  next-total =
      let same = total-shifted parent.weights target donor delta other in
      omega (arith, same, raised-Near, lowered-Near, delta-le)

  sum-next : 0 < delta → Near 5 (f.sum_of (values_of next)) (total next)
  sum-next some_left =
      let near = rounds.sum-Near (values_of next) (omega arith) (
        let h = next_in_range some_left in
        (
          omega (arith, h Component.semantic),
          (
            omega (arith, h Component.context),
            (
              omega (arith, h Component.belief),
              (omega (arith, h Component.utility), (omega (arith, h Component.recency), tt)),
            ),
          ),
        )) in
      omega (arith, near)

  proposal-returns :
      (id : Uuid) (at : Instant)
      → (proposal parent target donor id at ≡ ok none)
        ⊎ Proposes parent target (proposal parent target donor id at)
  unfolding proposal
  proposal-returns id at = elim (Bool-cases (leb delta 0)) [
    | inl none_left ↦ inl (rw none_left)
    | inr some_left ↦
        let positive : 0 < delta = omega tests in
        let range = next_in_range positive in
        elim (Bool-cases (is_close (f.sum_of (values_of next)) one)) [
          | inl close ↦
              let valid = made-IsStrategy positive close in
              let accepted = make_weights-ok next range close in
              inr (
                inl (
                  made,
                  rw (some_left, accepted, make_strategy-ok made valid),
                  valid,
                  record {
                    donor = donor;
                    delta = delta;
                    other = other;
                    positive = positive;
                    bounded = delta-le.0;
                    raised =
                        rw (shifted_target parent.weights target donor delta other) raised-Near;
                    lowered =
                        rw (shifted_donor parent.weights target donor delta other)
                          (omega (arith, lowered-Near, delta-le));
                    rest = λ c nt nd. shifted_other parent.weights target donor delta other c nt nd;
                    same_total = next-total;
                    next_version = refl;
                    extends = refl;
                    same_score = refl;
                    same_half_life = refl;
                  },
                ))
          | inr far ↦
              let refused = make_weights-not_close next range far in
              inr (inr (rw (some_left, refused), at_edge positive far))
        ]
  ]
    where
      made : StrategySnapshot
      made = record {
        id = id;
        version = parent.version + 1;
        weights = next;
        min_score = parent.min_score;
        recency_half_life_days = parent.recency_half_life_days;
        created_at = at;
        parent_id = some parent.id;
      }

      made-IsStrategy :
          0 < delta → is_close (f.sum_of (values_of next)) one ≡ true → IsStrategy made
      made-IsStrategy positive close = record {
        version = omega arith;
        low = λ c. (next_in_range positive c).0;
        high = λ c. (next_in_range positive c).1;
        close = close;
        score = sound.score;
        half_life_low = sound.half_life_low;
        half_life_high = sound.half_life_high;
      }

      at_edge : 0 < delta → is_close (f.sum_of (values_of next)) one ≡ false → AtEdge parent.weights
      at_edge positive far = elim (not_close (f.sum_of (values_of next)) far) [
        | inl below ↦ inl (omega (arith, below, sum-next positive, next-total))
        | inr above ↦ inr (omega (arith, above, sum-next positive, next-total))
      ]

propose_from :
    ⦃f : Rounding⦄ (rounds : IsRounding f) (parent : StrategySnapshot) (target : Component)
    (id : Uuid) (at : Instant)
    → IsStrategy parent
    → (ds : List Component) → length ds ≡ 4
    → All (λ c. c ≢ target) ds
    → (elim ds [
      | [] ↦ err (value_error "list index out of range")
      | donor ∷ rest ↦ proposal parent target donor id at
    ]
        ≡ ok none)
      ⊎ Proposes parent target (elim ds [
        | [] ↦ err (value_error "list index out of range")
        | donor ∷ rest ↦ proposal parent target donor id at
      ])
propose_from rounds parent target id at sound [] four others = absurd (omega arith)
propose_from rounds parent target id at sound (d ∷ ds) four others =
    proposal-returns rounds parent sound target d others.0 id at

-- From a strategy that its constructors accept, under float arithmetic that rounds as it should,
-- `propose` gives nothing, or a strategy that they accept again, or it raises. A strategy that it gives
-- is one version up and has the parent's id; the dominant component of the diagnosis has gained, but
-- for rounding, at most 0.03 from one other component, and all other weights, the score threshold and
-- the half-life are the parent's. It raises only that the weights do not sum to 1, and only when the
-- parent's own weights sum to 1 with an error of 9.9 * 10 ^ -10 or more, where 10 ^ -9 is allowed.
pub propose-returns :
    ⦃f : Rounding⦄ (rounds : IsRounding f) (parent : StrategySnapshot)
    (diagnosis : FailureDiagnosis) (id : Uuid) (at : Instant)
    → IsStrategy parent
    → (propose parent diagnosis id at ≡ ok none)
      ⊎ ((target : Component) × (dominant_component diagnosis ≡ some target)
          × Proposes parent target (propose parent diagnosis id at))
unfolding propose
propose-returns rounds parent diagnosis id at sound =
    elim (Option-cases (dominant_component diagnosis)) [
      | inl healthy ↦ inl (rw (healthy, propose))
      | inr (target, e) ↦
          rw (e, propose)
            (elim (propose_from rounds parent target id at sound (donors parent.weights target)
              (length-donors parent.weights target) (donor-ne parent.weights target)) [
                | inl none_left ↦ inl none_left
                | inr proposed ↦ inr (target, refl, proposed)
              ])
    ]
