-- ===== src/Plugins/Url.antt =====
-- The simple URL encoder of the custom provider (`tohex`, `ishex` and `url_encode` of
-- plugins/generic.c). Bytes above 127 are no letters, as in the C locale.
pub mod Laws
use inadyn.Prelude.{
  ℕ, zero, suc, ◌+◌, ◌-◌, ◌/◌, ◌%◌, Bool, true, false, ◌&&◌, ◌||◌, List, [], ◌∷◌, ◌++◌, ◌==◌, leb,
  ltb, if◌then◌else◌,
}
use inadyn.Prelude.Text.{Str, is_digit}

-- "0123456789abcdef"[code & 15]
unfoldable pub tohex : ℕ → ℕ
tohex c = if ltb (c % 16) 10 then b'0' + c % 16 else b'a' + (c % 16 - 10)

-- isxdigit
abbrev pub is_xdigit : ℕ → Bool
is_xdigit c = is_digit c || (leb b'a' c && leb c b'f') || (leb b'A' c && leb c b'F')

-- isalnum
abbrev pub is_alnum : ℕ → Bool
is_alnum c = is_digit c || (leb b'a' c && leb c b'z') || (leb b'A' c && leb c b'Z')

-- `ishex` of a text of at least three bytes.
unfoldable pub ishex : ℕ → ℕ → ℕ → Bool
ishex a b c = a == b'%' && is_xdigit b && is_xdigit c

-- The bytes that are left as they are.
abbrev pub is_plain : ℕ → Bool
is_plain c =
    is_alnum c
    || c == b'-'
    || c == b'_'
    || c == b'.'
    || c == b'~'
    || c == b'/'
    || c == b'?'
    || c == b'&'
    || c == b'='

-- What one byte outside an escape becomes.
unfoldable pub encode_byte : ℕ → Str
unfolding tohex
encode_byte c =
    if is_plain c
    then c ∷ []
    else if c == b' '
    then b'+' ∷ []
    else b'%' ∷ tohex (c / 16) ∷ tohex c ∷ []

unfoldable pub url_encode : Str → Str
url_encode [] = []
url_encode (a ∷ []) = encode_byte a
url_encode (a ∷ b ∷ []) = encode_byte a ++ encode_byte b
url_encode (a ∷ b ∷ c ∷ rest) =
    let behind = url_encode rest in
    let next = url_encode (b ∷ c ∷ rest) in
    elim (ishex a b c) [ true ↦ a ∷ b ∷ c ∷ behind | false ↦ encode_byte a ++ next ]
