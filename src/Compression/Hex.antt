-- ===== src/Compression/Hex.antt =====
-- A SHA-256 hex digest passes `_require_sha256` unchanged.
use evolvable_user_memory.Base.{
  ℕ, ◌≡◌, refl, Bool, true, false, [], ◌∷◌, All, length, arith, ◌||◌, ◌==◌, nat_eq,
}
use evolvable_user_memory.Base.Text.{Text, is_space, not-is_space, strip_none}
use evolvable_user_memory.Base.Result.{ok}
use evolvable_user_memory.Common.{require_text}
use evolvable_user_memory.Projection.{
  is_hex, lower, scan_digits, scan_unsigned, is_int16, require_sha256,
}

abbrev pub IsHex : Text → Type 0
IsHex s = All (λ c. is_hex c ≡ true) s

-- What `hexdigest` returns: 64 hex digits in lower case.
pub record IsDigest (s : Text) : Type 0 where
  pub size : length s ≡ 64
  pub digits : IsHex s

is_hex-not_space : (c : ℕ) → is_hex c ≡ true → is_space c ≡ false
unfolding is_hex
is_hex-not_space c h = not-is_space c (ground arith) (ground arith)

IsHex-not_space : (s : Text) → IsHex s → All (λ c. is_space c ≡ false) s
IsHex-not_space [] h = tt
IsHex-not_space (c ∷ s) h = (is_hex-not_space c h.0, IsHex-not_space s h.1)

lower_hex : (s : Text) → IsHex s → lower s ≡ s
unfolding is_hex lower
lower_hex [] h = refl
lower_hex (c ∷ s) h = ground (arith, lower_hex s h.1)

scan_digits_hex :
    (s : Text) (c : ℕ) (ready : Bool) → IsHex (c ∷ s) → scan_digits ready (c ∷ s) ≡ true
unfolding scan_digits
scan_digits_hex [] c ready h = ground arith
scan_digits_hex (d ∷ s) c ready h = ground (arith, scan_digits_hex s d true h.1)

scan_unsigned_hex : (s : Text) (c : ℕ) → IsHex (c ∷ s) → scan_unsigned (c ∷ s) ≡ true
unfolding scan_unsigned
scan_unsigned_hex [] c h = scan_digits_hex [] c false h
scan_unsigned_hex (d ∷ []) c h = scan_digits_hex (d ∷ []) c false h
scan_unsigned_hex (d ∷ e ∷ s) c h =
    ground (arith, scan_digits_hex (d ∷ e ∷ s) c false h, scan_digits_hex s e true h.1.1)

not_sign : (c : ℕ) → is_hex c ≡ true → (c == b'+' || c == b'-') ≡ false
unfolding is_hex
not_sign c h = ground arith

is_int16_hex : (s : Text) (c : ℕ) → IsHex (c ∷ s) → is_int16 (c ∷ s) ≡ true
unfolding is_int16
is_int16_hex s c h = rw (not_sign c h.0) (scan_unsigned_hex s c h)

require_text_hex : (s : Text) (c : ℕ) → IsHex (c ∷ s) → require_text (c ∷ s) ≡ ok (c ∷ s)
unfolding require_text
require_text_hex s c h = rw (strip_none (c ∷ s) (IsHex-not_space (c ∷ s) h), require_text)

pub require_sha256-IsDigest : (s : Text) → IsDigest s → require_sha256 s ≡ ok s
unfolding require_sha256
require_sha256-IsDigest [] h = absurd (omega (arith, h.size))
require_sha256-IsDigest (c ∷ s) h =
    rw (require_text_hex s c h.digits)
      (rw (lower_hex (c ∷ s) h.digits) (ground (arith, h.size, is_int16_hex s c h.digits)))
