-- ===== src/Compression/Json.antt =====
-- `json.dumps(..., ensure_ascii=False, separators=(",", ":"), sort_keys=True)` of one memory.
use evolvable_user_memory.Base.{
  ℕ, ◌+◌, ◌-◌, ◌*◌, ◌/◌, List, [], ◌∷◌, ◌++◌, ◌==◌, nat_eq, ltb, if◌then◌else◌,
}
use evolvable_user_memory.Base.Text.{Text, text}
use evolvable_user_memory.Common.{ContextSignature}

unfoldable pub hex_digit : ℕ → ℕ
hex_digit n = if ltb n 10 then b'0' + n else b'a' + (n - 10)

-- The escapes of the encoder: quotes, backslashes and control characters.
unfoldable pub escape : ℕ → Text
unfolding hex_digit
escape c =
    if c == b'"'
    then text "\\\""
    else if c == b'\\'
    then text "\\\\"
    else if c == 10
    then text "\\n"
    else if c == 13
    then text "\\r"
    else if c == 9
    then text "\\t"
    else if c == 12
    then text "\\f"
    else if c == 8
    then text "\\b"
    else if ltb c 32
    then text "\\u00" ++ hex_digit (c / 16) ∷ hex_digit (c - c / 16 * 16) ∷ []
    else c ∷ []

unfoldable pub escape_all : Text → Text
unfolding escape
escape_all [] = []
escape_all (c ∷ s) = escape c ++ escape_all s

unfoldable pub dumps_string : Text → Text
unfolding escape_all
dumps_string s = b'"' ∷ escape_all s ++ b'"' ∷ []

unfoldable pub dumps_entries : List (Text × Text) → Text
unfolding dumps_string
dumps_entries [] = []
dumps_entries ((k, v) ∷ []) = dumps_string k ++ b':' ∷ dumps_string v
dumps_entries ((k, v) ∷ rest) =
    (dumps_string k ++ b':' ∷ dumps_string v) ++ b',' ∷ dumps_entries rest

-- A dict of texts. The facets of a context are in the order of their keys already.
unfoldable pub dumps_object : List (Text × Text) → Text
unfolding dumps_entries
dumps_object entries = b'{' ∷ dumps_entries entries ++ b'}' ∷ []

-- The keys "context", "key" and "value" are in order.
unfoldable pub memory_body : ContextSignature → Text → Text → Text
memory_body context key value =
    text "\"context\":"
    ++ dumps_object context.facets
    ++ text ",\"key\":"
    ++ dumps_string key
    ++ text ",\"value\":"
    ++ dumps_string value

unfoldable pub dumps_memory : ContextSignature → Text → Text → Text
dumps_memory context key value = b'{' ∷ memory_body context key value ++ b'}' ∷ []
