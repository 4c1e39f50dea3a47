-- ===== src/Service/Expected.antt =====
-- What a recall answers: the admissible memories that are visible, the best first, under one strategy.
use evolvable_user_memory.Base.{
  ℕ, ◌+◌, ◌≡◌, refl, Bool, ◌&&◌, ◌||◌, List, [], ◌∷◌, take, map, keep, length, leb, nat_eq, arith,
  All, ap, if◌then◌else◌,
}
use evolvable_user_memory.Base.Result.{ok}
use evolvable_user_memory.Base.Text.{Text, strip}
use evolvable_user_memory.Base.Dict.{Dict}
use evolvable_user_memory.Base.Sort.{sorted}
use evolvable_user_memory.Common.{Uuid, Instant, Hashing}
use evolvable_user_memory.Memory.{MemorySnapshot}
use evolvable_user_memory.Experience.{ScoreBreakdown, RecalledItem, RecallTrace}
use evolvable_user_memory.Evolution.Strategy.{StrategySnapshot}
use evolvable_user_memory.Store.State.{Store}
use evolvable_user_memory.Store.Memories.{memories_as_of, cons_some}
use evolvable_user_memory.Store.Reads.{IsHead}
use evolvable_user_memory.Commands.{RecallMemory}
use evolvable_user_memory.Service.Lexical.{Folding}
use evolvable_user_memory.Service.Recall.{
  Decay, scores_of, Entry, entry_for, entries_for, entry_geb, item_for, or_now,
  passes_relevance_admission,
}
use evolvable_user_memory.Service.Entries.{
  IsDecay, IsHit, IsCredible, entry_with, breakdown_of, breakdown-returns,
}

-- An entry is relevant when its text bears on the query, or its context on the requested one, and it
-- is admissible when it also reaches the minimum score.
abbrev pub is_admissible : RecallMemory → StrategySnapshot → Entry → Bool
is_admissible command policy e =
    (leb 1 e.breakdown.semantic
      || (leb 1 (length e.memory.context.facets)
          && leb 1 (length command.context.facets)
          && leb 1 e.breakdown.context))
    && leb policy.min_score e.score

-- The items of some entries, ranked from a number on.
abbrev pub items_for : ℕ → List Entry → List RecalledItem
items_for rank [] = []
items_for rank (e ∷ es) = item_for rank e ∷ items_for (rank + 1) es

-- The entry of a memory, whether it is shown or not.
abbrev pub entry_of :
    ⦃h : Hashing⦄ ⦃f : Folding⦄ ⦃d : Decay⦄
    → Text
    → RecallMemory
    → StrategySnapshot
    → Dict Uuid ℕ
    → (valid_at known_at : Instant) → Store
    → MemorySnapshot
    → Entry
entry_of query command policy vector_scores valid_at known_at s x =
    entry_with x (breakdown_of query command policy vector_scores valid_at known_at s x) policy

-- The entries of the memories that may be shown, in the order of the memories.
abbrev pub admissible :
    ⦃h : Hashing⦄ ⦃f : Folding⦄ ⦃d : Decay⦄
    → Text
    → RecallMemory
    → StrategySnapshot
    → Dict Uuid ℕ
    → (valid_at known_at : Instant) → Store
    → List MemorySnapshot
    → List Entry
admissible query command policy vector_scores valid_at known_at s xs =
    keep (is_admissible command policy)
      (map (entry_of query command policy vector_scores valid_at known_at s) xs)

-- A trace that answers a command under a strategy, given the hits of the projection: its items are the
-- best `limit` of the admissible entries, and it names the strategy and what was asked.
pub record IsAnswer ⦃h : Hashing⦄ ⦃f : Folding⦄ ⦃d : Decay⦄ (command : RecallMemory)
    (policy : StrategySnapshot) (hits : List (Uuid × ℕ)) (now : Instant) (s : Store)
    (t : RecallTrace) : Type 0 where
  pub scope : t.scope ≡ command.scope
  pub query : t.query ≡ strip command.query
  pub context : t.context ≡ command.context
  pub policy_id : t.policy_id ≡ policy.id
  pub policy_version : t.policy_version ≡ policy.version
  pub valid_at : t.valid_at ≡ or_now command.valid_at now
  pub known_at : t.known_at ≡ or_now command.known_at now
  pub created_at : t.created_at ≡ now
  pub memories : List MemorySnapshot
  pub visible : memories_as_of command.scope t.valid_at t.known_at s ≡ ok memories
  pub items :
      t.items
      ≡ items_for 1 (
          take command.limit (
            sorted entry_geb (
              admissible t.query command policy
                (scores_of hits [])
                t.valid_at
                t.known_at
                s
                memories)))

entry_for-admissible :
    (command : RecallMemory) (policy : StrategySnapshot) (x : MemorySnapshot) (b : ScoreBreakdown)
    (es : List Entry)
    → cons_some (entry_for command policy x b) es ≡ (
        if is_admissible command policy (entry_with x b policy)
        then entry_with x b policy ∷ es
        else es)
unfolding entry_for passes_relevance_admission
entry_for-admissible command policy x b es = ground arith

module _ ⦃h : Hashing⦄ ⦃f : Folding⦄ ⦃d : Decay⦄ (decays : IsDecay d) (query : Text)
    (command : RecallMemory) (policy : StrategySnapshot) (vector_scores : Dict Uuid ℕ)
    (bounded : All IsHit vector_scores) (valid_at known_at : Instant) (s : Store)
    (credible : All IsCredible s.revisions) where
  pub entries_for-admissible :
      (xs : List MemorySnapshot)
      → All (IsHead s) xs
      → entries_for query command policy vector_scores valid_at known_at s xs
        ≡ ok (admissible query command policy vector_scores valid_at known_at s xs)
  unfolding entries_for
  entries_for-admissible [] heads = refl
  entries_for-admissible (x ∷ xs) heads =
      let (near, made) =
        breakdown-returns decays query command policy vector_scores bounded valid_at known_at s
          credible x heads.0 in
      rw (near, made, entries_for-admissible xs heads.1)
        (ap ok (entry_for-admissible command policy x _ _))
