-- ===== src/Plugins/Cloudflare/Laws.antt =====
-- Which host names plugins/cloudflare.c takes for identifiers of records.
use inadyn.Prelude.{ℕ, ◌≡◌, refl, ap, ◌∙◌, true, [], ◌∷◌, leb, arith, all, length}
use inadyn.Prelude.Text.{Str}
use inadyn.Http.{skip_space}
use inadyn.Plugins.Url.{is_xdigit}
use inadyn.Plugins.Cloudflare.{
  is_record_id, strtoull, hex_number, skip_0x, ullong_max, signed_hex, saturate,
}

skip_space-xdigit : (c : ℕ) (s : Str) → is_xdigit c ≡ true → skip_space (c ∷ s) ≡ c ∷ s
unfolding skip_space
skip_space-xdigit c s h = ground arith

skip_0x-xdigits : (s : Str) → all is_xdigit s ≡ true → skip_0x s ≡ s
unfolding skip_0x
skip_0x-xdigits [] h = refl
skip_0x-xdigits (a ∷ []) h = refl
skip_0x-xdigits (a ∷ x ∷ []) h = refl
skip_0x-xdigits (a ∷ x ∷ d ∷ s) h = ground arith

signed_hex-xdigit :
    (c : ℕ) (s : Str)
    → is_xdigit c ≡ true
    → signed_hex (c ∷ s) ≡ saturate (hex_number 0 (skip_0x (c ∷ s)))
signed_hex-xdigit c s h = ground arith

-- strtoull of hexadecimal digits.
strtoull-xdigits :
    (c : ℕ) (s : Str)
    → all is_xdigit (c ∷ s) ≡ true
    → strtoull (c ∷ s) ≡ saturate (hex_number 0 (c ∷ s))
unfolding strtoull
strtoull-xdigits c s h =
    let first : is_xdigit c ≡ true = ground arith in
    rw (skip_space-xdigit c s first) (
      signed_hex-xdigit c s first ∙ ap (λ t. saturate (hex_number 0 t)) (skip_0x-xdigits (c ∷ s) h))

-- A name of 32 hexadecimal digits counts as the identifier of a record exactly when its number does not
-- fit 64 bits, or is the largest that does.
pub is_record_id-digits :
    (name : Str)
    → length name ≡ 32
    → all is_xdigit name ≡ true
    → is_record_id name ≡ leb ullong_max (hex_number 0 name)
unfolding is_record_id
is_record_id-digits [] h digits = absurd (omega arith)
is_record_id-digits (c ∷ s) h digits = rw (strtoull-xdigits c s digits) (ground arith)
