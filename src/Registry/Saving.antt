-- ===== src/Registry/Saving.antt =====
-- `_save_strategy_unlocked`, `ensure_active_strategy` and registration keep the invariant.
use evolvable_user_memory.Base.{
  ℕ, ◌+◌, ◌≡◌, refl, true, List, [], ◌∷◌, nat_eq, list_eq, All, Option, none, some, arith,
  if◌then◌else◌, ap, ◌∙◌, ◌==◌, ==_iff, Option-cases, inl, inr, sym, All-imp, ◌⊎◌, subst, last,
}
use evolvable_user_memory.Base.Result.{ok, >>=-eq-ok}
use evolvable_user_memory.Base.Dict.{Dict, get, insert, has, get-insert, has→get, get→has}
use evolvable_user_memory.Common.{Uuid}
use evolvable_user_memory.Evolution.Strategy.{StrategySnapshot, strategy_eq, strategy_beq_iff}
use evolvable_user_memory.Evolution.Activation.{StrategyActivation}
use evolvable_user_memory.Evolution.Experiment.{EvolutionExperiment}
use evolvable_user_memory.Registry.State.{Registry, check_lineage, save_strategy, active_strategy}
use evolvable_user_memory.Registry.Valid.{Descends, root, child, IsTracked, IsStored, IsValid}

-- How a registry that saved a strategy differs from the one before.
pub record Saves (s : StrategySnapshot) (r r' : Registry) : Type 0 where
  pub strategies :
      (i : Uuid) → get i r'.strategies ≡ (if s.id == i then some s else get i r.strategies)
  pub old :
      (i : Uuid) (x : StrategySnapshot) → get i r.strategies ≡ some x → get i r'.strategies ≡ some x
  pub lineage :
      (get s.id r.strategies ≡ some s) ⊎ (check_lineage s.parent_id s.version r.strategies ≡ ok tt)
  pub activations : r'.activations ≡ r.activations
  pub experiments : r'.experiments ≡ r.experiments
  pub transitions : r'.transitions ≡ r.transitions
  pub transition_ids : r'.transition_ids ≡ r.transition_ids
  pub transition_keys : r'.transition_keys ≡ r.transition_keys

save_present :
    (s x : StrategySnapshot) (r r' : Registry)
    → get s.id r.strategies ≡ some x
    → save_strategy s r ≡ ok r'
    → (s ≡ x) × (r' ≡ r)
unfolding save_strategy
save_present s x r r' present h = ground (arith, strategy_beq_iff x s)

save_absent :
    (s : StrategySnapshot) (r r' : Registry)
    → get s.id r.strategies ≡ none
    → save_strategy s r ≡ ok r'
    → (check_lineage s.parent_id s.version r.strategies ≡ ok tt)
      × (r' ≡ record r { strategies = insert s.id s r.strategies })
unfolding save_strategy
save_absent s r r' absent h =
    let (t, lineage, done) =
      >>=-eq-ok (check_lineage s.parent_id s.version r.strategies)
        (λ (u : Unit {0}). ok (record r { strategies = insert s.id s r.strategies }))
        (rw (absent, save_strategy) at h) in
    (lineage, cc done)

pub save_strategy-Saves :
    (s : StrategySnapshot) (r r' : Registry) → save_strategy s r ≡ ok r' → Saves s r r'
save_strategy-Saves s r r' h = elim (Option-cases (get s.id r.strategies)) [
  | inl absent ↦
      let (lineage, e) = save_absent s r r' absent h in
      rw e (record {
        strategies = λ i. get-insert s.id i s r.strategies;
        old = λ i x found. rw get-insert (ground (arith, ==_iff s.id i));
        lineage = inr lineage;
        activations = refl;
        experiments = refl;
        transitions = refl;
        transition_ids = refl;
        transition_keys = refl;
      })
  | inr (x, present) ↦
      let (same, e) = save_present s x r r' present h in
      rw e (record {
        strategies = λ i. ground (arith, ==_iff s.id i);
        old = λ i y found. found;
        lineage = inl (present ∙ ap some (sym same));
        activations = refl;
        experiments = refl;
        transitions = refl;
        transition_ids = refl;
        transition_keys = refl;
      })
]

-- What a lineage that passes the check is.
abbrev IsLineage : Option Uuid → ℕ → Dict Uuid StrategySnapshot → Type 0
IsLineage parent version strategies =
    ((parent ≡ none) × (version ≡ 1))
    ⊎ ((p : Uuid) × (s : StrategySnapshot) × (parent ≡ some p)
        × (get p strategies ≡ some s)
        × (version ≡ s.version + 1))

IsLineage-cases :
    (parent : Option Uuid) (version : ℕ) (strategies : Dict Uuid StrategySnapshot)
    → check_lineage parent version strategies ≡ ok tt
    → IsLineage parent version strategies
unfolding check_lineage
IsLineage-cases none version strategies h = inl (refl, ground arith)
IsLineage-cases (some p) version strategies h = elim (Option-cases (get p strategies)) [
  | inl absent ↦ cc (rw (absent, check_lineage) at h)
  | inr (s, found) ↦ inr (p, s, refl, found, ground arith)
]

Descends-old :
    {old new : Dict Uuid StrategySnapshot} {i : Uuid} {n : ℕ}
    → ((j : Uuid) (x : StrategySnapshot) → get j old ≡ some x → get j new ≡ some x)
    → Descends old i n
    → Descends new i n
Descends-old keeps (root s found top one) = root s (keeps _ s found) top one
Descends-old keeps (child s p m found under d next) =
    child s p m (keeps _ s found) under (Descends-old keeps d) next

pub has-old :
    (old new : Dict Uuid StrategySnapshot) (i : Uuid)
    → ((j : Uuid) (x : StrategySnapshot) → get j old ≡ some x → get j new ≡ some x)
    → has i old ≡ true
    → has i new ≡ true
has-old old new i keeps h = let (x, found) = has→get i old h in get→has i new x (keeps i x found)

module _ (s : StrategySnapshot) (r r' : Registry) (saves : Saves s r r') (valid : IsValid r) where
  new-Descends : Descends r'.strategies s.id s.version
  new-Descends = elim saves.lineage [
    | inl present ↦ Descends-old saves.old (valid.descends s.id s present)
    | inr checked ↦ elim (IsLineage-cases s.parent_id s.version r.strategies checked) [
      | inl (top, one) ↦ root s stored top one
      | inr (p, ps, under, found, next) ↦
          child s p ps.version stored under (Descends-old saves.old (valid.descends p ps found))
            next
    ]
  ]
    where
      stored : get s.id r'.strategies ≡ some s
      stored = ground (arith, saves.strategies s.id, ==_iff s.id s.id)

  stored_cases :
      (i : Uuid) (x : StrategySnapshot)
      → get i r'.strategies ≡ some x
      → ((i ≡ s.id) × (x ≡ s)) ⊎ (get i r.strategies ≡ some x)
  stored_cases i x found = ground (arith, saves.strategies i, ==_iff s.id i)

  kept-IsTracked : (i : Uuid) (e : EvolutionExperiment) → IsTracked r i e → IsTracked r' i e
  kept-IsTracked i e t = record {
    named = t.named;
    baseline = has-old r.strategies r'.strategies e.baseline_id saves.old t.baseline;
    candidate = has-old r.strategies r'.strategies e.candidate_id saves.old t.candidate;
    history = t.history;
    stored = rw saves.transitions t.stored;
    follows = t.follows;
  }

  pub Saves-IsValid : IsValid r'
  Saves-IsValid = record {
    named = λ i x found. elim (stored_cases i x found) [
      | inl (p, q) ↦ rw (p, q)
      | inr old ↦ valid.named i x old
    ];
    descends = λ i x found. elim (stored_cases i x found) [
      | inl (p, q) ↦ rw (p, q) new-Descends
      | inr old ↦ Descends-old saves.old (valid.descends i x old)
    ];
    active = rw saves.activations (
        All-imp (IsStored r.strategies) (IsStored r'.strategies) r.activations
          (λ a h. has-old r.strategies r'.strategies a.strategy_id saves.old h) valid.active);
    tracked = λ i e found. kept-IsTracked i e (valid.tracked i e (rw saves.experiments at found));
  }

-- Saving keeps the registry valid.
pub save_strategy-IsValid :
    (s : StrategySnapshot) (r r' : Registry) → IsValid r → save_strategy s r ≡ ok r' → IsValid r'
save_strategy-IsValid s r r' valid h = Saves-IsValid s r r' (save_strategy-Saves s r r' h) valid

All-last {ℓ κ} :
    {A : Type ℓ} (P : A → Type κ) (xs : List A) (x : A) → last xs ≡ some x → All P xs → P x
All-last P [] x h k = cc
All-last P (y ∷ []) x h k = subst P (ground arith) k.0
All-last P (y ∷ z ∷ xs) x h k = All-last P (z ∷ xs) x h k.1

-- In a valid registry the active strategy can always be read: it is none only before the first
-- activation, and otherwise the strategy that the last activation names.
pub active_strategy-returns :
    (r : Registry)
    → IsValid r
    → ((last r.activations ≡ none) × (active_strategy r ≡ ok none))
      ⊎ ((a : StrategyActivation) × (s : StrategySnapshot) × (last r.activations ≡ some a)
          × (active_strategy r ≡ ok (some s))
          × (get a.strategy_id r.strategies ≡ some s)
          × (s.id ≡ a.strategy_id))
unfolding active_strategy
active_strategy-returns r valid = elim (Option-cases (last r.activations)) [
  | inl nothing ↦ inl (nothing, rw (nothing, active_strategy))
  | inr (a, e) ↦
      let stored = All-last (IsStored r.strategies) r.activations a e valid.active in
      let (s, found) = has→get a.strategy_id r.strategies stored in
      inr (a, s, e, rw (e, active_strategy) (rw found), found, valid.named a.strategy_id s found)
]
