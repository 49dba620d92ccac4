-- ===== src/Identity/Tokens.antt =====
-- The short form `router_id:group` of a subject is read back.
use pqproxy.Base.{
  ◌≤◌, ◌≡◌, refl, ap, ap₂, ◌∙◌, Bool, true, if_true, ◌&&◌, ◌||◌, not, [], ◌∷◌, ◌++◌, Option, none,
  some, pos, Str, ◌==◌, take_all, length, arith,
}
use pqproxy.Identity.{
  Identity, split_at, is_simple, is_nonempty, of_tokens, token_form, dn_form, from_cert_subject,
}

-- No colon, no slash and no equals sign.
unfoldable pub is_token : Str → Bool
is_token [] = true
is_token (b ∷ s) = not (b == b':' || b == b'/' || b == b'=') && is_token s

-- A text without colon, slash and equals sign.
split_simple : (r g : Str) → is_token r ≡ true → split_at b':' (r ++ b':' ∷ g) ≡ some (r, g)
unfolding split_at is_token
split_simple [] g h = refl
split_simple (b ∷ r) g h = ground (arith, split_simple r g)

is_token-simple : (r : Str) → is_token r ≡ true → is_simple r ≡ true
unfolding is_simple is_token
is_token-simple [] h = refl
is_token-simple (b ∷ r) h = ground (arith, is_token-simple r)

of_tokens_fit :
    (r g : Str)
    → is_nonempty r ≡ true
    → is_nonempty g ≡ true
    → is_simple r ≡ true
    → length r ≤ 127
    → length g ≤ 63
    → of_tokens r g ≡ some (record { router_id = r; group = g; identity_slot = pos 0 })
unfolding of_tokens
of_tokens_fit r g nr ng simple hr hg =
    if_true none (all_three nr ng simple)
    ∙ ap₂ (λ a b. some (record { router_id = a; group = b; identity_slot = pos 0 }))
        (take_all 127 r hr) (take_all 63 g hg)
  where
    all_three : {a b c : Bool} → a ≡ true → b ≡ true → c ≡ true → (a && b && c) ≡ true
    all_three ea eb ec = ground arith

-- A subject of a router name without colon, slash and equals sign, a colon and a group, both
-- nonempty and within 127 and 63 bytes, is read back as that name and that group.
pub from_cert_subject-tokens :
    (r g : Str)
    → is_nonempty r ≡ true
    → is_nonempty g ≡ true
    → is_token r ≡ true
    → length r ≤ 127
    → length g ≤ 63
    → from_cert_subject (r ++ b':' ∷ g) ≡ record { router_id = r; group = g; identity_slot = pos 0 }
unfolding from_cert_subject token_form
from_cert_subject-tokens r g nr ng tok hr hg =
    ap
      (λ (o : Option Identity). elim o as (λ x. Identity) [
        | some id ↦ id
        | none ↦ dn_form (r ++ b':' ∷ g)
      ])
      (ap
          (λ (o : Option (Str × Str)). elim o as (λ x. Option Identity) [
            | none ↦ none
            | some (before, after) ↦ of_tokens before after
          ])
          (split_simple r g tok)
        ∙ of_tokens_fit r g nr ng (is_token-simple r tok) hr hg)
