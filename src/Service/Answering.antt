-- ===== src/Service/Answering.antt =====
-- `recall` of the whole application: it answers under the active strategy.
use evolvable_user_memory.Base.{ℕ, ◌≤◌, ◌≡◌, nat_eq, All, Option, none, some}
use evolvable_user_memory.Base.Result.{ok}
use evolvable_user_memory.Base.Fixed.{one}
use evolvable_user_memory.Base.Text.{Text}
use evolvable_user_memory.Common.{Instant, Scope}
use evolvable_user_memory.Worker.{ProjectionHit, ProjectionSearchResult}
use evolvable_user_memory.Service.Application.{Application, Search}

-- What the constructor of a hit guarantees.
abbrev pub IsScored : ProjectionHit → Type 0
IsScored hit = hit.score ≤ one

-- The projection answers with hits that its constructors accept.
abbrev pub Answers : Option Search → Type 0
Answers none = Unit {0}
Answers (some search) =
    (scope : Scope) (query : Text) (limit : ℕ) (valid_at known_at : Instant)
    → (r : ProjectionSearchResult) × (search scope query limit valid_at known_at ≡ ok r)
      × All IsScored r.hits
