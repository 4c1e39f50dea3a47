-- ===== src/Service/Ranking.antt =====
-- `recall` returns a ranking of what it may show.
use evolvable_user_memory.Base.{ℕ, ◌+◌, ◌≤◌, ◌≡◌, false, List, [], ◌∷◌, ltb, nat_eq, ◌==◌, arith}
use evolvable_user_memory.Common.{Instant, ContextSignature, scope_eq}
use evolvable_user_memory.Experience.{RecalledItem}
use evolvable_user_memory.Evolution.Strategy.{StrategySnapshot}
use evolvable_user_memory.Store.State.{Store}
use evolvable_user_memory.Service.Recall.{Entry, weighted_score}
use evolvable_user_memory.Service.Entries.{IsRelevant}

-- Ranks that count on from a number.
abbrev pub Counts : ℕ → List RecalledItem → Type 0
Counts rank [] = Unit
Counts rank (i ∷ is) = (i.rank ≡ rank) × Counts (rank + 1) is

abbrev pub score_of : Entry → ℕ
score_of e = e.score

abbrev pub item_score : RecalledItem → ℕ
item_score i = i.score

-- What an item of a recall shows.
pub record IsShown (policy : StrategySnapshot) (requested : ContextSignature)
    (valid_at known_at : Instant) (i : RecalledItem) : Type 0 where
  pub relevant : IsRelevant i.context requested i.breakdown
  pub weighed : i.score ≡ weighted_score i.breakdown policy.weights
  pub enough : policy.min_score ≤ i.score
  pub held : i.revision_valid_from ≤ valid_at
  pub known : i.revision_recorded_at ≤ known_at

pub not_zero : (n : ℕ) → 1 ≤ n → (n == 0) ≡ false
not_zero n h = ground arith

pub not_later : (a b : ℕ) → a ≤ b → ltb b a ≡ false
not_later a b h = ground arith
