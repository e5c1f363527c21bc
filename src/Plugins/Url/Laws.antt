-- ===== src/Plugins/Url/Laws.antt =====
-- Laws of the URL encoder (plugins/generic.c).
use mathlib.Core.List.{append-nil}
use inadyn.Prelude.{
  ℕ, ◌+◌, ◌*◌, ◌/◌, ◌≤◌, ◌<◌, ◌≡◌, ◌≢◌, refl, ap, Bool, true, false, ◌||◌, [], ◌∷◌, ◌++◌, ◌==◌,
  arith, All, length, length-append, Bool-cases, inl, inr, ◌∙◌, ◌⊎◌,
}
use inadyn.Prelude.Text.{Str}
use inadyn.Plugins.Url.{url_encode, encode_byte, ishex, is_plain, tohex}

length-encode_byte-le : (c : ℕ) → length (encode_byte c) ≤ 3
unfolding encode_byte
length-encode_byte-le c = ground arith

-- The encoded text fits the buffer of three bytes for each byte and a NUL that it is written to.
pub length-url_encode-le : (s : Str) → length (url_encode s) < 3 * length s + 1
unfolding url_encode
length-url_encode-le [] = omega arith
length-url_encode-le (a ∷ []) = omega (arith, length-encode_byte-le a)
length-url_encode-le (a ∷ b ∷ []) = omega (
  arith,
  length-append (encode_byte a) (encode_byte b),
  length-encode_byte-le a,
  length-encode_byte-le b,
)
length-url_encode-le (a ∷ b ∷ c ∷ rest) = ground (
  arith,
  length-encode_byte-le a,
  length-append (encode_byte a) (url_encode (b ∷ c ∷ rest)),
  length-url_encode-le rest,
  length-url_encode-le (b ∷ c ∷ rest),
)

-- A byte that may stand in a URL: one that is left as it is, or '%' or '+'.
abbrev pub is_url_byte : ℕ → Bool
is_url_byte c = is_plain c || c == b'%' || c == b'+'

abbrev pub IsUrl : Str → Type 0
IsUrl = All (λ c. is_url_byte c ≡ true)

IsUrl-append : (s t : Str) → IsUrl s → IsUrl t → IsUrl (s ++ t)
IsUrl-append [] t h k = k
IsUrl-append (c ∷ s) t h k = (h.0, IsUrl-append s t h.1 k)

tohex-url : (c : ℕ) → is_url_byte (tohex c) ≡ true
unfolding tohex
tohex-url c = ground arith

encode_byte-IsUrl : (c : ℕ) → IsUrl (encode_byte c)
unfolding encode_byte
encode_byte-IsUrl c = ground (arith, tohex-url c, tohex-url (c / 16))

ishex-url :
    (a b c : ℕ)
    → ishex a b c ≡ true
    → (is_url_byte a ≡ true) × (is_url_byte b ≡ true) × (is_url_byte c ≡ true)
unfolding ishex
ishex-url a b c h = ground arith

-- The two ways in which the encoder goes on.
url_encode-escape :
    (a b c : ℕ) (rest : Str)
    → ishex a b c ≡ true
    → url_encode (a ∷ b ∷ c ∷ rest) ≡ a ∷ b ∷ c ∷ url_encode rest
unfolding url_encode
url_encode-escape a b c rest e = ground arith

url_encode-byte :
    (a b c : ℕ) (rest : Str)
    → ishex a b c ≡ false
    → url_encode (a ∷ b ∷ c ∷ rest) ≡ encode_byte a ++ url_encode (b ∷ c ∷ rest)
unfolding url_encode
url_encode-byte a b c rest e = ground arith

url_encode-two : (a b : ℕ) → url_encode (a ∷ b ∷ []) ≡ encode_byte a ++ encode_byte b
unfolding url_encode
url_encode-two a b = refl

url_encode-one : (a : ℕ) → url_encode (a ∷ []) ≡ encode_byte a
unfolding url_encode
url_encode-one a = refl

-- Every byte of the encoded text is one that may stand in a URL.
pub url_encode-IsUrl : (s : Str) → IsUrl (url_encode s)
url_encode-IsUrl [] = unfold url_encode in tt
url_encode-IsUrl (a ∷ []) = rw url_encode-one (encode_byte-IsUrl a)
url_encode-IsUrl (a ∷ b ∷ []) =
    rw url_encode-two
      (IsUrl-append (encode_byte a) (encode_byte b) (encode_byte-IsUrl a) (encode_byte-IsUrl b))
url_encode-IsUrl (a ∷ b ∷ c ∷ rest) =
    let behind = url_encode-IsUrl rest in
    let plain =
      IsUrl-append (encode_byte a) (url_encode (b ∷ c ∷ rest)) (encode_byte-IsUrl a)
        (url_encode-IsUrl (b ∷ c ∷ rest)) in
    elim (Bool-cases (ishex a b c)) [
      | inl e ↦
          let (ha, hb, hc) = ishex-url a b c e in
          rw (url_encode-escape a b c rest e) (ha, (hb, (hc, behind)))
      | inr e ↦ rw (url_encode-byte a b c rest e) plain
    ]

-- A plain byte is no '%', so no escape begins there.
url_encode-plain : (c : ℕ) (t : Str) → is_plain c ≡ true → url_encode (c ∷ t) ≡ c ∷ url_encode t
unfolding url_encode encode_byte ishex
url_encode-plain c [] h = ground arith
url_encode-plain c (x ∷ []) h = ground arith
url_encode-plain c (x ∷ y ∷ t) h = ground arith

ishex-tohex : (c : ℕ) → ishex b'%' (tohex (c / 16)) (tohex c) ≡ true
unfolding ishex tohex
ishex-tohex c = ground arith

encode_byte-cases :
    (c : ℕ)
    → c ≢ b' '
    → ((is_plain c ≡ true) × (encode_byte c ≡ c ∷ []))
      ⊎ (encode_byte c ≡ b'%' ∷ tohex (c / 16) ∷ tohex c ∷ [])
unfolding encode_byte
encode_byte-cases c h = elim (Bool-cases (is_plain c)) [
  | inl p ↦ inl (p, ground arith)
  | inr n ↦ inr (ground arith)
]

url_encode-encode_byte :
    (c : ℕ) (t : Str) → c ≢ b' ' → url_encode (encode_byte c ++ t) ≡ encode_byte c ++ url_encode t
url_encode-encode_byte c t h = elim (encode_byte-cases c h) [
  | inl (p, e) ↦ rw e (url_encode-plain c t p)
  | inr e ↦ rw e (url_encode-escape b'%' (tohex (c / 16)) (tohex c) t (ishex-tohex c))
]

url_encode-encoded : (c : ℕ) → c ≢ b' ' → url_encode (encode_byte c) ≡ encode_byte c
unfolding url_encode
url_encode-encoded c h = rw append-nil at (url_encode-encode_byte c [] h)

-- A text without spaces is encoded once: encoding the result again changes nothing, so a text that a
-- user has encoded already is kept.
pub url_encode_idem : (s : Str) → All (λ c. c ≢ b' ') s → url_encode (url_encode s) ≡ url_encode s
url_encode_idem [] h = unfold url_encode in refl
url_encode_idem (a ∷ []) h = rw url_encode-one (url_encode-encoded a h.0)
url_encode_idem (a ∷ b ∷ []) h = rw url_encode-two (
    url_encode-encode_byte a (encode_byte b) h.0
    ∙ ap (λ t. encode_byte a ++ t) (url_encode-encoded b h.1.0))
url_encode_idem (a ∷ b ∷ c ∷ rest) h =
    let behind = url_encode_idem rest h.1.1.1 in
    let next = url_encode_idem (b ∷ c ∷ rest) h.1 in
    elim (Bool-cases (ishex a b c)) [
      | inl e ↦
          rw (url_encode-escape a b c rest e)
            (url_encode-escape a b c (url_encode rest) e ∙ ap (λ t. a ∷ b ∷ c ∷ t) behind)
      | inr e ↦ rw (url_encode-byte a b c rest e) (
          url_encode-encode_byte a (url_encode (b ∷ c ∷ rest)) h.0
          ∙ ap (λ t. encode_byte a ++ t) next)
    ]
