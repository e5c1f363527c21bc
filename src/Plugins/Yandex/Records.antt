-- ===== src/Plugins/Yandex/Records.antt =====
-- What plugins/yandex.c reads of an answer: whether it is a success, and the identifier of a record.
use inadyn.Prelude.{
  ℕ, ◌-◌, Bool, true, false, ◌&&◌, Option, none, some, List, [], ◌∷◌, leb, take, drop,
  if◌then◌else◌,
}
use inadyn.Prelude.Text.{Str, codes}
use inadyn.Prelude.Int.{ℤ, pos, negsuc}
use inadyn.Json.{
  Jsmn, Token, TokenType, undefined, object, array, string, primitive, jsoneq, is_object, entries,
}
use inadyn.Plugins.Scan.{scan_int}

abbrev pub tokens_expected : ℕ
tokens_expected = 4096

abbrev of_object : List Token → Option (List Token)
of_object [] = none
of_object (t ∷ rest) = if is_object t.type then some (t ∷ rest) else none

abbrev filled : ℤ → (ℕ → Token) → Option (List Token)
filled (negsuc n) token = none
filled (pos n) token = of_object (entries n 0 token)

-- The tokens of an object.
unfoldable pub get_tokens : Jsmn → Str → Option (List Token)
get_tokens jsmn response =
    filled (jsmn.fill response tokens_expected) (jsmn.token response tokens_expected)

-- Whether "ok" is behind one of the keys "success", in the tokens behind the first.
unfoldable pub ok_behind : Str → List Token → Bool
ok_behind response [] = false
ok_behind response (t ∷ []) = false
ok_behind response (t ∷ v ∷ rest) =
    if jsoneq response t (codes "success") && jsoneq response v (codes "ok")
    then true
    else ok_behind response (v ∷ rest)

abbrev behind_root : List Token → List Token
behind_root [] = []
behind_root (t ∷ rest) = rest

unfoldable pub success : Jsmn → Str → Bool
unfolding ok_behind
success jsmn response = elim (get_tokens jsmn response) [
  | none ↦ false
  | some tokens ↦ ok_behind response (behind_root tokens)
]

-- The states of the search (ST_UNKNOWN, ST_FIND_RECORDS, ST_FIND_RECORD_ID).
pub data Search : Type 0 where
  unknown find_records find_record_id : Search

-- How far a member of a record is read: SUBDOMAIN_NONE, SUBDOMAIN_KEYWORD, SUBDOMAIN_VALUE, and the
-- same for its type.
pub data Field : Type 0 where
  absent keyword found : Field

-- The local variables of `get_record_id`.
pub record Progress : Type 0 where
  pub state : Search
  pub subdomain_field : Field
  pub type_field : Field
  pub record_id : ℤ
  pub id_keyword_found : Bool

abbrev pub start : Progress
start = record {
  state = unknown;
  subdomain_field = absent;
  type_field = absent;
  record_id = pos 0;
  id_keyword_found = false;
}

abbrev pub in_records : Search → Bool
in_records unknown = false
in_records find_records = false
in_records find_record_id = true

abbrev is_find_records : Search → Bool
is_find_records unknown = false
is_find_records find_records = true
is_find_records find_record_id = false

abbrev pub is_keyword : Field → Bool
is_keyword absent = false
is_keyword keyword = true
is_keyword found = false

abbrev pub is_found : Field → Bool
is_found absent = false
is_found keyword = false
is_found found = true

-- strtol of a number within the range of an int.
abbrev number_of : Str → ℤ
number_of s = elim (scan_int s) [ none ↦ pos 0 | some (n, rest) ↦ n ]

-- A member that waits for its value has it in the token that holds the wanted text.
abbrev pub settle : Bool → Field → Field
settle same field = if is_keyword field && same then found else field

-- The identifier, once all three members of a record are there.
abbrev pub complete : ℤ → Progress → Option ℕ
complete (negsuc n) p = none
complete (pos n) p =
    if is_found p.subdomain_field && is_found p.type_field && leb 1 n then some n else none

-- A token that is no keyword, inside the records. One that is too long for a number is passed over.
unfoldable pub on_value : Str → Str → Token → Progress → Progress × Option ℕ
on_value response subdomain tok p =
    let p₁ = record p {
      subdomain_field = settle (jsoneq response tok subdomain) p.subdomain_field;
      type_field = settle (jsoneq response tok (codes "A")) p.type_field;
    } in
    let p₂ = record p₁ { id_keyword_found = false } in
    let id = number_of (take (tok.stop - tok.start) (drop tok.start response)) in
    if p.id_keyword_found
    then if leb 129 (tok.stop - tok.start)
      then (p₂, none)
      else (record p₂ { record_id = id }, complete id p₂)
    else (p₁, complete p₁.record_id p₁)

-- A string or a primitive.
unfoldable pub on_text : Str → Str → Token → Progress → Progress × Option ℕ
unfolding on_value
on_text response subdomain tok p =
    if jsoneq response tok (codes "records")
    then (record p { state = find_records }, none)
    else if in_records p.state
    then if jsoneq response tok (codes "subdomain")
      then (record p { subdomain_field = keyword }, none)
      else if jsoneq response tok (codes "type")
      then (record p { type_field = keyword }, none)
      else if jsoneq response tok (codes "record_id")
      then (record p { id_keyword_found = true }, none)
      else on_value response subdomain tok p
    else (p, none)

-- The identifier is kept where an object begins.
abbrev on_object : Progress → Progress
on_object p =
    if in_records p.state
    then record p { subdomain_field = absent; type_field = absent; id_keyword_found = false }
    else p

abbrev on_array : Progress → Progress
on_array p = if is_find_records p.state then record p { state = find_record_id } else p

abbrev of_type : TokenType → Str → Str → Token → Progress → Progress × Option ℕ
of_type undefined response subdomain tok p = (p, none)
of_type object response subdomain tok p = (on_object p, none)
of_type array response subdomain tok p = (on_array p, none)
of_type string response subdomain tok p = on_text response subdomain tok p
of_type primitive response subdomain tok p = on_text response subdomain tok p

-- One round of the loop: the variables behind it, and the identifier that ends it.
unfoldable pub on_token : Str → Str → Token → Progress → Progress × Option ℕ
unfolding on_text
on_token response subdomain tok p = of_type tok.type response subdomain tok p

-- The rounds from a token on.
unfoldable pub scan_tokens : Str → Str → List Token → Progress → ℤ
unfolding on_token
scan_tokens response subdomain [] p = if in_records p.state then pos 0 else negsuc 0
scan_tokens response subdomain (tok ∷ rest) p =
    let (p', id) = on_token response subdomain tok p in
    let later = scan_tokens response subdomain rest p' in elim id [ none ↦ later | some n ↦ pos n ]

unfoldable pub get_record_id : Jsmn → Str → Str → ℤ
unfolding scan_tokens
get_record_id jsmn response subdomain = elim (get_tokens jsmn response) [
  | none ↦ negsuc 0
  | some tokens ↦ scan_tokens response subdomain (behind_root tokens) start
]
