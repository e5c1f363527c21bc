-- ===== src/Tls/Trust.antt =====
-- Which certificates the back ends accept (src/openssl.c, src/gnutls.c).
use inadyn.Prelude.{ℕ, ◌≤◌, ◌≡◌, ◌↔◌, ◌⊎◌, inl, inr, Bool, true, false, refl, arith, Bool-cases}
use inadyn.Tls.Openssl.{
  Policy, VerifyError, verified, chain_too_long, not_yet_valid, other_error, verify_callback,
  is_not_yet_valid,
}
use inadyn.Tls.Gnutls.{Peer, verify_certificate_callback, is_trusted}

-- What the user asks for, in words of what the library found.
abbrev AcceptsChain : Policy → Bool → VerifyError → ℕ → Type 0
AcceptsChain policy preverify_ok err depth =
    (policy.secure_ssl ≡ false)
    ⊎ ((depth ≤ 100)
        × ((preverify_ok ≡ true) ⊎ ((policy.broken_rtc ≡ true) × (err ≡ not_yet_valid))))

not_yet : (err : VerifyError) → is_not_yet_valid err ≡ true → err ≡ not_yet_valid
not_yet verified h = cc
not_yet chain_too_long h = cc
not_yet not_yet_valid h = refl
not_yet other_error h = cc

accept :
    (policy : Policy) (preverify_ok : Bool) (err : VerifyError) (depth : ℕ)
    → verify_callback policy preverify_ok err depth ≡ true
    → AcceptsChain policy preverify_ok err depth
unfolding verify_callback
accept policy preverify_ok err depth h = elim (Bool-cases policy.secure_ssl) [
  | inr off ↦ inl off
  | inl on ↦ elim (Bool-cases preverify_ok) [
    | inl ok ↦ inr (ground arith, inl ok)
    | inr bad ↦ inr (ground arith, inr (ground arith, not_yet err (ground arith)))
  ]
]

-- With OpenSSL a certificate is accepted exactly when validation is off, or when it is at most 100 links
-- from the end and the library found no fault, or only that it is not valid yet while the clock is
-- known to be wrong.
pub verify_callback_iff :
    (policy : Policy) (preverify_ok : Bool) (err : VerifyError) (depth : ℕ)
    → (verify_callback policy preverify_ok err depth ≡ true)
      ↔ AcceptsChain policy preverify_ok err depth
unfolding verify_callback
verify_callback_iff policy preverify_ok verified depth =
    (λ h. accept policy preverify_ok verified depth h, λ h. ground arith)
verify_callback_iff policy preverify_ok chain_too_long depth =
    (λ h. accept policy preverify_ok chain_too_long depth h, λ h. ground arith)
verify_callback_iff policy preverify_ok not_yet_valid depth =
    (λ h. accept policy preverify_ok not_yet_valid depth h, λ h. ground arith)
verify_callback_iff policy preverify_ok other_error depth =
    (λ h. accept policy preverify_ok other_error depth h, λ h. ground arith)

-- With GnuTLS, while validation is on, what is accepted names the host that was asked for, and is
-- trusted, but for a wrong clock that alone excuses a certificate that is not active yet.
pub verify_certificate_callback-safe :
    (policy : Policy) (peer : Peer)
    → policy.secure_ssl ≡ true
    → verify_certificate_callback policy peer ≡ true
    → (peer.host_matches ≡ true)
      × (peer.verifies ≡ true)
      × ((peer.status.invalid ≡ false)
          ⊎ ((policy.broken_rtc ≡ true)
              × (peer.status.not_activated ≡ true)
              × (peer.status.another ≡ false)))
unfolding verify_certificate_callback is_trusted
verify_certificate_callback-safe policy peer on h = (
  ground arith,
  ground arith,
  elim (Bool-cases peer.status.invalid) [
    | inr trusted ↦ inl trusted
    | inl untrusted ↦ inr (ground arith, ground arith, ground arith)
  ],
)
