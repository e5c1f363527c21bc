-- ===== src/Http/Response.antt =====
-- How http.c takes a response apart: the body behind the first empty line, and the status line,
-- read with sscanf (rsp, "HTTP/1.%*c %4d %255[^\r\n]", &status, status_desc).
use inadyn.Prelude.{
  ℕ, zero, suc, ◌+◌, ◌-◌, ◌*◌, Bool, true, false, not, ◌&&◌, ◌||◌, Option, none, some, [], ◌∷◌,
  ◌==◌, leb, if◌then◌else◌,
}
use inadyn.Prelude.Text.{Str, codes, strstr, starts_with, is_digit}
use inadyn.Prelude.Int.{ℤ, pos, negsuc}

-- A buffer as a C string ends before its first NUL.
unfoldable pub c_string : Str → Str
c_string [] = []
c_string (c ∷ s) = if c == 0 then [] else c ∷ c_string s

abbrev pub sep : Str
sep = 13 ∷ 10 ∷ 13 ∷ 10 ∷ []

abbrev drop_sep : Str → Str
drop_sep (a ∷ b ∷ c ∷ d ∷ body) = body
drop_sep s = s

-- `rsp_body`: what follows the separator, or the whole response.
unfoldable pub http_response_parse_body : Str → Str
http_response_parse_body rsp = elim (strstr rsp sep) [ none ↦ rsp | some at_sep ↦ drop_sep at_sep ]

-- isspace
abbrev pub is_space : ℕ → Bool
is_space c = c == b' ' || (leb 9 c && leb c 13)

-- White space in a scanf format skips any amount of it.
unfoldable pub skip_space : Str → Str
skip_space [] = []
skip_space (c ∷ s) = if is_space c then skip_space s else c ∷ s

-- The digits of a %d of at most `width` bytes: the value so far, whether one was read, the rest.
unfoldable pub scan_digits : ℕ → ℕ → Bool → Str → Option (ℕ × Str)
scan_digits zero n any s = if any then some (n, s) else none
scan_digits (suc width) n any [] = if any then some (n, []) else none
scan_digits (suc width) n any (c ∷ s) =
    let more = scan_digits width (n * 10 + (c - b'0')) true s in
    if is_digit c then more else (if any then some (n, c ∷ s) else none)

abbrev pub negate : ℕ → ℤ
negate zero = pos 0
negate (suc n) = negsuc n

-- %4d after its white space: an optional sign counts for the width.
unfoldable pub scan_int4 : Str → Option (ℤ × Str)
unfolding scan_digits
scan_int4 [] = none
scan_int4 (c ∷ s) =
    if c == b'-'
    then elim (scan_digits 3 0 false s) [ none ↦ none | some (n, r) ↦ some (negate n, r) ]
    else if c == b'+'
    then elim (scan_digits 3 0 false s) [ none ↦ none | some (n, r) ↦ some (pos n, r) ]
    else elim (scan_digits 4 0 false (c ∷ s)) [ none ↦ none | some (n, r) ↦ some (pos n, r) ]

-- %255[^\r\n] needs one byte that is neither.
abbrev scan_desc : Str → Bool
scan_desc [] = false
scan_desc (c ∷ s) = not (c == 13 || c == 10)

-- "HTTP/1.%*c": the literal and any one byte.
abbrev scan_version : Str → Option Str
scan_version (h ∷ t₁ ∷ t₂ ∷ p ∷ slash ∷ one ∷ dot ∷ minor ∷ rest) =
    if starts_with (h ∷ t₁ ∷ t₂ ∷ p ∷ slash ∷ one ∷ dot ∷ []) (codes "HTTP/1.")
    then some rest
    else none
scan_version _ = none

-- `status`: the code if both items were read, else 0.
unfoldable pub http_response_parse_status : Str → ℤ
unfolding scan_int4 skip_space
http_response_parse_status rsp = elim (scan_version rsp) [
  | none ↦ pos 0
  | some r ↦ elim (scan_int4 (skip_space r)) [
    | none ↦ pos 0
    | some (status, r') ↦ if scan_desc (skip_space r') then status else pos 0
  ]
]
