-- ===== src/Base/Text.antt =====
-- Python's `str` as its code points, and the methods of it that the program calls.
use Prim.Native.Nat.{ℕ, ◌≤◌, ◌<◌}
use native.Mathlib.Omega.{arith}
use evolvable_user_memory.Base.Lists.{All, length}
use Prim.Native.Char.{code}
use Prim.Native.String.{String}
use mathlib.Core.Path.{◌≡◌, ◌∙◌, ap, refl, sym}
use mathlib.Core.Logic.{inl, inr}
use mathlib.Core.Bool.{Bool, false, ◌&&◌, ◌||◌}
use mathlib.Core.List.{List, [], ◌∷◌, ◌++◌, reverse, reverse-append, reverse-reverse, reverse_aux}
use evolvable_user_memory.Base.Tests.{leb, if◌then◌else◌, Bool-cases}
use evolvable_user_memory.Base.Equality.{◌==◌, nat_eq}

abbrev pub Text : Type 0
Text = List ℕ

-- A literal of the source.
abbrev pub text : String → Text
text String.[] = []
text (String.◌∷◌ c s) = code c ∷ text s

between : ℕ → ℕ → ℕ → Bool
between lo hi c = leb lo c && leb c hi

-- `str.isspace` of one character
unfoldable pub is_space : ℕ → Bool
unfolding between
is_space c =
    between 9 13 c
    || between 28 32 c
    || c == 133
    || c == 160
    || c == 5760
    || between 8192 8202 c
    || c == 8232
    || c == 8233
    || c == 8239
    || c == 8287
    || c == 12288

unfoldable pub lstrip : Text → Text
lstrip [] = []
lstrip (c ∷ s) = let rest = lstrip s in if is_space c then rest else c ∷ s

-- `value.strip()`
unfoldable pub strip : Text → Text
unfolding lstrip is_space
strip s = reverse (lstrip (reverse (lstrip s)))

-- A text that begins and ends with characters that are not white space is left as it is.
pub strip-closed :
    (a b : ℕ) (s : Text)
    → is_space a ≡ false
    → is_space b ≡ false
    → strip (a ∷ s ++ b ∷ []) ≡ a ∷ s ++ b ∷ []
unfolding strip
strip-closed a b s ha hb =
    rw (ha, lstrip)
      (rw (reverse-append (a ∷ s) (b ∷ [])) (
        rw (hb, lstrip)
          (reverse-append (b ∷ []) (reverse (a ∷ s))
            ∙ ap (λ l. l ++ b ∷ []) (reverse-reverse (a ∷ s)))))

pub not-is_space : (c : ℕ) → 33 ≤ c → c < 133 → is_space c ≡ false
unfolding is_space
not-is_space c lo hi = ground arith

lstrip_none : (s : Text) → All (λ c. is_space c ≡ false) s → lstrip s ≡ s
unfolding lstrip
lstrip_none [] h = refl
lstrip_none (c ∷ s) h = rw h.0

All-reverse_aux :
    (s acc : Text)
    → All (λ c. is_space c ≡ false) s
    → All (λ c. is_space c ≡ false) acc
    → All (λ c. is_space c ≡ false) (reverse_aux s acc)
All-reverse_aux [] acc h k = k
All-reverse_aux (c ∷ s) acc h k = All-reverse_aux s (c ∷ acc) h.1 (h.0, k)

-- A text without white space is left as it is.
pub strip_none : (s : Text) → All (λ c. is_space c ≡ false) s → strip s ≡ s
unfolding strip
strip_none s h =
    rw (lstrip_none s h)
      (rw (lstrip_none (reverse s) (All-reverse_aux s [] h tt)) (reverse-reverse s))

-- What `lstrip` leaves begins with a character that is not white space.
lstrip-lstrip : (s : Text) → lstrip (lstrip s) ≡ lstrip s
unfolding lstrip
lstrip-lstrip [] = refl
lstrip-lstrip (c ∷ s) = elim (Bool-cases (is_space c)) [
  | inl e ↦ rw e (lstrip-lstrip s)
  | inr e ↦ rw e (rw e refl)
]

lstrip-suffix : (s : Text) → (dropped : Text) × (s ≡ dropped ++ lstrip s)
unfolding lstrip
lstrip-suffix [] = ([], refl)
lstrip-suffix (c ∷ s) = elim (Bool-cases (is_space c)) [
  | inl e ↦ let (dropped, p) = lstrip-suffix s in (c ∷ dropped, rw e (ap (λ l. c ∷ l) p))
  | inr e ↦ ([], rw e refl)
]

length-lstrip-le : (s : Text) → length (lstrip s) ≤ length s
unfolding lstrip
length-lstrip-le [] = omega arith
length-lstrip-le (c ∷ s) = elim (Bool-cases (is_space c)) [
  | inl e ↦ rw e (omega (arith, length-lstrip-le s))
  | inr e ↦ rw e (omega arith)
]

lstrip_head : (c : ℕ) (s : Text) → lstrip (c ∷ s) ≡ c ∷ s → is_space c ≡ false
unfolding lstrip
lstrip_head c s h = elim (Bool-cases (is_space c)) [
  | inl e ↦
      let p : lstrip s ≡ c ∷ s = rw e at h in
      absurd (omega (arith, length-lstrip-le s, ap length p))
  | inr e ↦ e
]

lstrip-prefix : (s t : Text) → lstrip (s ++ t) ≡ s ++ t → lstrip s ≡ s
unfolding lstrip
lstrip-prefix [] t h = refl
lstrip-prefix (c ∷ s) t h = rw (lstrip_head c (s ++ t) h) refl

-- Stripping a second time changes nothing.
pub strip-strip : (s : Text) → strip (strip s) ≡ strip s
unfolding strip
strip-strip s =
    let t = lstrip s in
    let u = lstrip (reverse t) in
    let (dropped, e) = lstrip-suffix (reverse t) in
    let back : t ≡ reverse u ++ reverse dropped =
      sym (reverse-reverse t) ∙ ap reverse e ∙ reverse-append dropped u in
    let left : lstrip (reverse u) ≡ reverse u =
      lstrip-prefix (reverse u) (reverse dropped) (ap lstrip (sym back) ∙ lstrip-lstrip s ∙ back) in
    rw (left, reverse-reverse u, lstrip-lstrip (reverse t)) refl
