-- ===== src/Store/Fetch.antt =====
-- Reading a dict by a key that must be there.
use evolvable_user_memory.Base.{◌≡◌, inl, inr, some, Option-cases, ap, ◌∙◌, nat_eq}
use evolvable_user_memory.Base.Result.{ok}
use evolvable_user_memory.Base.Dict.{Dict, get}
use evolvable_user_memory.Common.{Uuid}
use evolvable_user_memory.Store.Memories.{fetch}

pub fetch-eq-ok :
    {A : Type 0} (i : Uuid) (d : Dict Uuid A) (x : A) → fetch i d ≡ ok x → get i d ≡ some x
fetch-eq-ok i d x h = elim (Option-cases (get i d)) [
  | inl absent ↦ cc (rw (absent, fetch) at h)
  | inr (y, e) ↦ let k : ok y ≡ ok x = rw (e, fetch) at h in e ∙ (let p : y ≡ x = cc in ap some p)
]
