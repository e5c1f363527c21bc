-- ===== src/Plugins/Cloudxns/Lists.antt =====
-- How plugins/cloudxns.c looks a domain and a record up in the lists of the provider.
use inadyn.Prelude.{
  ℕ, zero, suc, ◌-◌, Bool, true, false, Option, none, some, List, [], ◌∷◌, ◌==◌, leb, if◌then◌else◌,
  length, drop,
}
use inadyn.Prelude.Text.{Str, codes, strcmp_eq, strlcpy, starts_with}
use inadyn.Prelude.Int.{ℤ}
use inadyn.Plugins.Scan.{scan_int, scan_set, skip_text, unsigned}

unfoldable pub string_endswith : Str → Str → Bool
string_endswith str suffix =
    if leb (length suffix) (length str)
    then strcmp_eq (drop (length str - length suffix) str) suffix
    else false

-- `objects tmp`: what the loops read items from, at "[" and at each ",{", without that first byte.
abbrev later_objects : Str → List Str
later_objects [] = []
later_objects (c ∷ s) =
    if starts_with (c ∷ s) (codes ",{") then s ∷ later_objects s else later_objects s

unfoldable pub objects : Str → List Str
objects [] = []
objects (c ∷ s) = s ∷ later_objects s

-- A text with quotation marks for its apostrophes.
abbrev double_quotes : Str → Str
double_quotes [] = []
double_quotes (c ∷ s) = (if c == 39 then 34 else c) ∷ double_quotes s

-- The rest of the formats: a number, a literal, and what a quotation mark ends.
abbrev number_then : Str → Option (ℤ × Str) → Option (ℕ × Str)
number_then text none = none
number_then text (some (n, rest)) = elim (skip_text (double_quotes text) rest) [
  | none ↦ none
  | some behind ↦ some (unsigned n, behind)
]

abbrev number_behind : Str → Str → Str → Option (ℕ × Str)
number_behind before after item = elim (skip_text (double_quotes before) item) [
  | none ↦ none
  | some at ↦ number_then after (scan_int at)
]

abbrev text_up_to : ℕ → ℕ × Str → Option (ℕ × Str)
text_up_to width (id, rest) = elim (scan_set width (34 ∷ []) rest) [
  | none ↦ none
  | some (value, end) ↦ some (id, value)
]

-- sscanf (item, "{\"id\":\"%u\",\"domain\":\"%255[^\"]", &id, domain) == 2
unfoldable pub scan_domain : Str → Option (ℕ × Str)
scan_domain item = elim (number_behind (codes "{'id':'") (codes "','domain':'") item) [
  | none ↦ none
  | some r ↦ text_up_to 255 r
]

-- sscanf (item, "{\"record_id\":\"%u\",\"host_id\":\"%*d\",\"host\":\"%63[^\"]", &id, _prefix) == 2
unfoldable pub scan_record : Str → Option (ℕ × Str)
scan_record item = elim (number_behind (codes "{'record_id':'") (codes "','host_id':'") item) [
  | none ↦ none
  | some (id, rest) ↦ elim (number_behind [] (codes "','host':'") rest) [
    | none ↦ none
    | some (host_id, at_host) ↦ text_up_to 63 (id, at_host)
  ]
]

-- domain[strlen(domain) - 1] = 0
unfoldable pub drop_last : Str → Str
drop_last [] = []
drop_last (c ∷ []) = []
drop_last (c ∷ d ∷ s) = c ∷ drop_last (d ∷ s)

-- The first domain with which the name ends, without its last byte.
unfoldable pub find_domain : Str → List Str → Option (ℕ × Str)
unfolding scan_domain drop_last string_endswith
find_domain name [] = none
find_domain name (item ∷ rest) =
    let later = find_domain name rest in
    elim (scan_domain item) [
      | none ↦ later
      | some (id, domain) ↦
          if string_endswith name (drop_last domain) then some (id, drop_last domain) else later
    ]

-- The first record of the prefix.
unfoldable pub find_record : Str → List Str → Option ℕ
unfolding scan_record
find_record prefix [] = none
find_record prefix (item ∷ rest) =
    let later = find_record prefix rest in
    elim (scan_record item) [
      | none ↦ later
      | some (id, host) ↦ if strcmp_eq prefix host then some id else later
    ]

-- The prefix of a name that is longer than its domain by `suc n` bytes: strlcpy is given the length of
-- the prefix for the size of the buffer. With no room it writes nothing, which is the second result.
abbrev prefix_with : Str → ℕ → Str × Bool
prefix_with name zero = ([], true)
prefix_with name (suc n) = (strlcpy (suc n) name, false)

unfoldable pub prefix_of : Str → Str → Str × Bool
prefix_of name domain =
    if length name == length domain
    then (codes "@", false)
    else prefix_with name (length name - length domain - 1)
