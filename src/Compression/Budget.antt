-- ===== src/Compression/Budget.antt =====
-- `_select_within_budget` keeps to the budget, leaves nothing out that still fits, and keeps the order.
use evolvable_user_memory.Base.{
  Bool, false, sym, ◌∙◌, ℕ, ◌+◌, ◌≤◌, ◌<◌, ◌≡◌, ◌⊎◌, inl, inr, refl, List, [], ◌∷◌, ◌++◌, map,
  length, arith, leb, tests, Bool-cases, leb→le, not-leb→lt, All, if◌then◌else◌,
}
use mathlib.Core.List.Memᴰ
use mathlib.Core.List.{Memᴰ, append_assoc, append-nil, map-append}
use evolvable_user_memory.Base.Weigh.{Sub, nil, taken, skipped, weigh, weigh-append}
use evolvable_user_memory.Projection.{document}
use evolvable_user_memory.Compression.{CandidateSegment, text_of, select_from, select_within_budget}
use evolvable_user_memory.Compression.Documents.{span, length-document_of}

abbrev doc_length : List CandidateSegment → ℕ
doc_length cs = length (document (map text_of cs))

abbrev fits : ℕ → List CandidateSegment → CandidateSegment → Bool
fits budget selected c = leb (length (document (map text_of selected ++ c.content ∷ []))) budget

module _ (budget : ℕ) where
  select_from-Sub :
      (cs selected : List CandidateSegment)
      → (chosen : List CandidateSegment) × (select_from budget selected cs ≡ selected ++ chosen)
        × Sub chosen cs
  unfolding select_from
  select_from-Sub [] selected = ([], sym (append-nil selected), nil)
  select_from-Sub (c ∷ cs) selected = elim (Bool-cases (fits budget selected c)) [
    | inl e ↦
        let (chosen, p, s) = select_from-Sub cs (selected ++ c ∷ []) in
        (c ∷ chosen, rw e (p ∙ append_assoc selected (c ∷ []) chosen), taken s)
    | inr e ↦ let (chosen, p, s) = select_from-Sub cs selected in (chosen, rw e p, skipped s)
  ]

  select_from-le :
      (cs selected : List CandidateSegment)
      → doc_length selected ≤ budget
      → doc_length (select_from budget selected cs) ≤ budget
  unfolding select_from
  select_from-le [] selected h = h
  select_from-le (c ∷ cs) selected h = elim (Bool-cases (fits budget selected c)) [
    | inl e ↦ rw e (select_from-le cs (selected ++ c ∷ []) (rw map-append (leb→le _ _ e)))
    | inr e ↦ rw e (select_from-le cs selected h)
  ]

  appended :
      (selected : List CandidateSegment) (c : CandidateSegment)
      → fits budget selected c ≡ false
      → budget < 15 + weigh span selected + length c.content
  appended selected c e =
      let known = length-document_of (selected ++ c ∷ []) in
      omega (tests, weigh-append span selected (c ∷ []), not-leb→lt _ _ e, rw map-append at known)

  -- What was dropped does not fit beside what is selected in the end either.
  abbrev pub IsSettled : List CandidateSegment → CandidateSegment → Type 0
  IsSettled final c = Memᴰ c final ⊎ (budget < length (document (map text_of (final ++ c ∷ []))))

  dropped :
      (selected chosen : List CandidateSegment) (c : CandidateSegment)
      → fits budget selected c ≡ false
      → budget < length (document (map text_of ((selected ++ chosen) ++ c ∷ [])))
  dropped selected chosen c e = omega (
    arith,
    appended selected c e,
    length-document_of ((selected ++ chosen) ++ c ∷ []),
    weigh-append span (selected ++ chosen) (c ∷ []),
    weigh-append span selected chosen,
  )

  IsSettled-head :
      (cs selected : List CandidateSegment) (c : CandidateSegment)
      → IsSettled (select_from budget selected (c ∷ cs)) c
  unfolding select_from
  IsSettled-head cs selected c = elim (Bool-cases (fits budget selected c)) [
    | inl e ↦
        let (chosen, p, s) = select_from-Sub cs (selected ++ c ∷ []) in
        rw (e, p) (inl (Memᴰ.append_left chosen (Memᴰ.append_right selected (Memᴰ.head refl))))
    | inr e ↦
        let (chosen, p, s) = select_from-Sub cs selected in
        rw (e, p) (inr (dropped selected chosen c e))
  ]

  select_from-IsSettled :
      (cs selected : List CandidateSegment) → All (IsSettled (select_from budget selected cs)) cs
  unfolding select_from
  select_from-IsSettled [] selected = tt
  select_from-IsSettled (c ∷ cs) selected = (
    IsSettled-head cs selected c,
    select_from-IsSettled cs (if fits budget selected c then selected ++ c ∷ [] else selected),
  )

-- The selection is a subsequence of the candidates, its document fits a budget of at least 15
-- characters, and each candidate is selected or its addition would pass the budget.
pub select_within_budget_lem :
    (candidates : List CandidateSegment) (budget : ℕ)
    → 15 ≤ budget
    → let selected = select_within_budget candidates budget in
      Sub selected candidates
      × (length (document (map text_of selected)) ≤ budget)
      × All (IsSettled budget selected) candidates
unfolding select_within_budget
select_within_budget_lem candidates budget h =
    let (chosen, p, s) = select_from-Sub budget candidates [] in
    (
      rw p s,
      select_from-le budget candidates [] (omega (arith, length-document_of [])),
      select_from-IsSettled budget candidates [],
    )
