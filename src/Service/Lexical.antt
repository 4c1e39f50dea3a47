-- ===== src/Service/Lexical.antt =====
-- The lexical score of `recall`: `_tokens` and `_lexical_similarity`. `str.casefold` is Python's.
use evolvable_user_memory.Base.{
  ℕ, Bool, ◌||◌, ◌&&◌, List, [], ◌∷◌, ◌++◌, map, keep, length, leb, ◌==◌, nat_eq, list_eq,
  if◌then◌else◌, ◌≤◌, length-append, length-keep-le, arith,
}
use evolvable_user_memory.Base.Text.{Text}
use evolvable_user_memory.Base.Sort.{set_of, contains, set_of-append, Distinct, Distinct-set_of}
use evolvable_user_memory.Base.Fixed.{one, ratio, ratio-le_one}

-- `str.casefold`
pub record Folding : Type 0 where
  pub casefold : Text → Text

-- What `[a-z0-9]` matches without regard to case: with the letters of ASCII the four characters
-- whose case forms are among them.
unfoldable pub is_word : ℕ → Bool
is_word c =
    (leb b'0' c && leb c b'9')
    || (leb b'a' c && leb c b'z')
    || (leb b'A' c && leb c b'Z')
    || c == 0x130
    || c == 0x131
    || c == 0x17f
    || c == 0x212a

-- A match, if the run of word characters that ends here is not empty.
abbrev pub flush : Text → List Text → List Text
flush [] words = words
flush (c ∷ run) words = (c ∷ run) ∷ words

-- `_ASCII_WORD.findall`, with the run that is being read
unfoldable pub words_from : Text → Text → List Text
words_from run [] = flush run []
words_from run (c ∷ s) =
    let longer = words_from (run ++ c ∷ []) s in
    let fresh = words_from [] s in if is_word c then longer else flush run fresh

-- `"\u3400" <= char <= "\u9fff"`
abbrev pub is_cjk : ℕ → Bool
is_cjk c = leb 0x3400 c && leb c 0x9fff

unfoldable pub bigrams : Text → List Text
bigrams [] = []
bigrams (a ∷ []) = []
bigrams (a ∷ b ∷ s) = (a ∷ b ∷ []) ∷ bigrams (b ∷ s)

abbrev pub single : ℕ → Text
single c = c ∷ []

-- `_tokens`
unfoldable pub tokens : ⦃f : Folding⦄ → Text → List Text
tokens ⦃f⦄ s =
    let lowered = f.casefold s in
    let cjk = keep is_cjk lowered in set_of (words_from [] lowered ++ map single cjk ++ bigrams cjk)

-- The quotient of `_lexical_similarity`; a set without elements gives 0.0.
unfoldable pub overlap : List Text → List Text → ℕ
overlap [] document = 0
overlap (q ∷ query) [] = 0
overlap (q ∷ query) (d ∷ document) =
    ratio (length (keep (contains (d ∷ document)) (q ∷ query)))
      (length (set_of ((q ∷ query) ++ d ∷ document)))

-- `_lexical_similarity`
unfoldable pub lexical_similarity : ⦃f : Folding⦄ → Text → Text → ℕ
lexical_similarity query document = overlap (tokens query) (tokens document)

overlap-le_one : (q d : List Text) → Distinct q → overlap q d ≤ one
unfolding overlap
overlap-le_one [] d h = omega arith
overlap-le_one (x ∷ q) [] h = omega arith
overlap-le_one (x ∷ q) (y ∷ d) h =
    let (rest, e) = set_of-append (x ∷ q) (y ∷ d) h in
    ratio-le_one _ _
      (rw e (omega (arith, length-append (x ∷ q) rest, length-keep-le (contains (y ∷ d)) (x ∷ q))))

-- The lexical similarity of any two texts lies in [0, 1].
pub lexical_similarity-le_one :
    ⦃f : Folding⦄ (query document : Text) → lexical_similarity query document ≤ one
unfolding lexical_similarity
lexical_similarity-le_one query document =
    overlap-le_one (tokens query) (tokens document) (unfold tokens in Distinct-set_of _)
