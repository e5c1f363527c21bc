-- ===== src/Json.antt =====
-- The JSON helpers (src/json.c, include/json.h). The parser jsmn is a copy of another project's code
-- and a parameter: how many tokens a text has, and what the array of that many tokens then holds.
use inadyn.Prelude.{
  ℕ, zero, suc, ◌+◌, Bool, true, false, ◌&&◌, Option, none, some, List, [], ◌∷◌, ◌==◌,
  if◌then◌else◌, length, drop,
}
use inadyn.Prelude.Text.{Str, starts_with}
use inadyn.Prelude.Int.{ℤ, pos, negsuc}

-- `jsmntype_t`
pub data TokenType : Type 0 where
  undefined object array string primitive : TokenType

-- `jsmntok_t`: the bytes from `start` up to `stop`.
pub record Token : Type 0 where
  pub type : TokenType
  pub start : ℕ
  pub stop : ℕ

pub record Jsmn : Type 0 where
  -- jsmn_parse with no array: a number of tokens, or a negative code
  pub count : Str → ℤ
  -- jsmn_parse with an array of the given size: its result, and what the entry at an index is then
  pub fill : Str → ℕ → ℤ
  pub token : Str → ℕ → ℕ → Token

-- The entries of an array of `n` tokens from an index on.
abbrev pub entries : ℕ → ℕ → (ℕ → Token) → List Token
entries zero i token = []
entries (suc n) i token = token i ∷ entries n (suc i) token

abbrev pub parsed_tokens : Jsmn → Str → ℤ → Option (List Token)
parsed_tokens jsmn json (negsuc n) = none
parsed_tokens jsmn json (pos zero) = none
parsed_tokens jsmn json (pos (suc n)) = some (entries (suc n) 0 (jsmn.token json (suc n)))

-- `none` is the code -1; otherwise the array has as many tokens as the return code says.
unfoldable pub parse_json : Jsmn → Str → Option (List Token)
parse_json jsmn json = parsed_tokens jsmn json (jsmn.count json)

abbrev pub is_string : TokenType → Bool
is_string undefined = false
is_string object = false
is_string array = false
is_string string = true
is_string primitive = false

abbrev pub is_primitive : TokenType → Bool
is_primitive undefined = false
is_primitive object = false
is_primitive array = false
is_primitive string = false
is_primitive primitive = true

abbrev pub is_object : TokenType → Bool
is_object undefined = false
is_object object = true
is_object array = false
is_object string = false
is_object primitive = false

-- jsoneq (json, tok, s) == 0
unfoldable pub jsoneq : Str → Token → Str → Bool
jsoneq json tok s =
    is_string tok.type && tok.start + length s == tok.stop && starts_with (drop tok.start json) s

abbrev starts_true : Str → Bool
starts_true [] = false
starts_true (c ∷ s) = c == b't'

-- The value behind the pointer, where the return code is 0.
unfoldable pub json_bool : Str → Token → Option Bool
json_bool json token =
    if is_primitive token.type then some (starts_true (drop token.start json)) else none
