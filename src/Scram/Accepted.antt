-- ===== src/Scram/Accepted.antt =====
-- When a client of SCRAM accepts its server's signature.
use pqproxy.Base.{
  ◌≡◌, refl, sym, ap, subst, ◌∙◌, ◌↔◌, Bool, true, false, ◌&&◌, Option, none, some, Str, ◌==◌,
  if◌then◌else◌, if_cases, ==_iff, length,
}
use pqproxy.Base.Each.{Each, nothing, value}
use pqproxy.Base.Bits.{difference, difference-eq, difference_self}
use pqproxy.Scram.{Crypto, Scram, hmac_sha256}
use pqproxy.Scram.Exchange.{server_value, same_signature, verify_server_final}

hmac_sha256-length :
    (crypto : Crypto) (key text : Str) → Each (λ out. length out ≡ 32) (hmac_sha256 crypto key text)
unfolding hmac_sha256
hmac_sha256-length crypto key text = go (crypto.hmac key text)
  where
    go :
        (o : Option Str)
        → Each
            (λ out. length out ≡ 32)
            (elim o as (λ x. Option Str) [
              | none ↦ none
              | some out ↦ if length out == 32 then some out else none
            ])
    go none = nothing
    go (some out) =
        if_cases (Each λ (out : Str). length out ≡ 32) (length out == 32)
          (λ e. value ((==_iff (length out) 32).0 e)) (λ e. nothing)

both_true : (a b : Bool) → (a && b) ≡ true → (a ≡ true) × (b ≡ true)
both_true true b e = (refl, e)
both_true false b e = cc

true_both : {a b : Bool} → a ≡ true → b ≡ true → (a && b) ≡ true
true_both {a = true} e k = k
true_both {a = false} e k = e

same_signature-eq :
    (expected got : Str)
    → length expected ≡ 32
    → (same_signature expected got ≡ true) ↔ (expected ≡ got)
unfolding same_signature
same_signature-eq expected got h = (
  λ e.
      let (l, d) = both_true (length got == 32) (difference 0 expected got == 0) e in
      difference-eq expected got (h ∙ sym ((==_iff (length got) 32).0 l))
        ((==_iff (difference 0 expected got) 0).0 d),
  λ e.
      subst (λ got. (length got == 32 && difference 0 expected got == 0) ≡ true) e
        (true_both ((==_iff (length expected) 32).1 h)
          ((==_iff (difference 0 expected expected) 0).1 (difference_self expected))),
)

-- The client's own computation of the server's signature.
abbrev pub own_signature : Crypto → Scram → Option Str
own_signature crypto s = hmac_sha256 crypto s.server_key s.auth_message

-- The server's last message is accepted exactly if its v= field decodes to the signature that the
-- client computes from the server key and the exchange.
pub verify_server_final-signature :
    (crypto : Crypto) (s : Scram) (server_final : Str)
    → (verify_server_final crypto s server_final ≡ true) ↔ (
        (sig : Str) × (own_signature crypto s ≡ some sig)
        × (server_value crypto server_final ≡ some sig))
unfolding verify_server_final
verify_server_final-signature crypto s server_final =
    go (own_signature crypto s) (server_value crypto server_final)
      (hmac_sha256-length crypto s.server_key s.auth_message)
  where
    go :
        (o v : Option Str)
        → Each (λ out. length out ≡ 32) o
        → (elim o as (λ x. Bool) [
          | none ↦ false
          | some expected ↦ elim v as (λ x. Bool) [
            | none ↦ false
            | some got ↦ same_signature expected got
          ]
        ]
            ≡ true)
          ↔ ((sig : Str) × (o ≡ some sig) × (v ≡ some sig))
    go none v h = (λ e. cc, λ (sig, e, k). cc)
    go (some expected) none h = (λ e. cc, λ (sig, e, k). cc)
    go (some expected) (some got) (value h) = (
      λ e. (expected, refl, ap some (sym ((same_signature-eq expected got h).0 e))),
      λ (sig, e, k). (same_signature-eq expected got h).1 (cc),
    )
