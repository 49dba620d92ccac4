-- ===== src/Identity/Subject.antt =====
-- Every identity fits its buffers and has a group.
use pqproxy.Base.{
  ℕ, suc, ◌≤◌, ◌<◌, ◌≡◌, refl, subst, Bool, true, if_cases, ◌&&◌, List, [], ◌∷◌, Option, none, some,
  pos, Str, codes, strncpy, take, length, length-take, arith,
}
use pqproxy.Identity.{
  Identity, Certificate, common_name, organizational_unit, split_at, until_nul, copy_field,
  dn_get_nid, is_simple, is_nonempty, of_tokens, token_form, attribute, attribute_at, find_cn,
  find_ou, or_else, dn_form, from_cert_subject, from_x509,
}

-- The router's name fits 127 bytes, the group has 1 to 63, and the slot is the first parameter.
pub record Fitting (id : Identity) : Type 0 where
  pub router_fits : length id.router_id ≤ 127
  pub group_fits : length id.group ≤ 63
  pub some_group : 0 < length id.group
  pub first_slot : id.identity_slot ≡ pos 0

length-strncpy-le : (n : ℕ) (s : Str) → length (strncpy n s) ≤ n
length-strncpy-le n s = omega (arith, length-take n s)

length-until_nul-le : (s : List ℕ) → length (until_nul s) ≤ length s
unfolding until_nul
length-until_nul-le [] = omega arith
length-until_nul-le (b ∷ s) = ground (arith, length-until_nul-le s)

length-dn_get_nid-le : (n : ℕ) (o : Option (List ℕ)) → length (dn_get_nid n o) ≤ n
unfolding dn_get_nid copy_field
length-dn_get_nid-le n none = omega arith
length-dn_get_nid-le n (some s) = omega (arith, length-until_nul-le (take n s), length-take n s)

length-attribute_at-le : (n : ℕ) (o : Option Str) → length (attribute_at n o) ≤ n
unfolding attribute
length-attribute_at-le n none = omega arith
length-attribute_at-le n (some attr) = name_part (split_at b'=' attr)
  where
    value_part :
        (start : Str) (o : Option (Str × Str))
        → length
            (elim o as (λ x. Str) [ none ↦ strncpy n start | some (value, more) ↦ strncpy n value ])
          ≤ n
    value_part start none = length-strncpy-le n start
    value_part start (some (value, more)) = length-strncpy-le n value

    name_part :
        (o : Option (Str × Str))
        → length (elim o as (λ x. Str) [
          | none ↦ []
          | some (name, start) ↦ elim (split_at b'/' start) as (λ x. Str) [
            | none ↦ strncpy n start
            | some (value, more) ↦ strncpy n value
          ]
        ])
          ≤ n
    name_part none = omega arith
    name_part (some (name, start)) = value_part start (split_at b'/' start)

or_else-le : (n : ℕ) (s t : Str) → length s ≤ n → length t ≤ n → length (or_else s t) ≤ n
or_else-le n [] t h k = k
or_else-le n (b ∷ s) t h k = h

or_else-some : (s t : Str) → 0 < length t → 0 < length (or_else s t)
or_else-some [] t h = h
or_else-some (b ∷ s) t h = omega arith

dn_form-Fitting : (subject : Str) → Fitting (dn_form subject)
unfolding dn_form
dn_form-Fitting subject = record {
  router_fits =
      or_else-le 127 (attribute_at 127 (find_cn subject)) (strncpy 127 subject)
        (length-attribute_at-le 127 (find_cn subject)) (length-strncpy-le 127 subject);
  group_fits =
      or_else-le 63 (attribute_at 63 (find_ou subject)) (codes "default")
        (length-attribute_at-le 63 (find_ou subject)) (omega arith);
  some_group = or_else-some (attribute_at 63 (find_ou subject)) (codes "default") (omega arith);
  first_slot = refl;
}

-- An identity that is found is in order.
abbrev FoundFitting : Option Identity → Type 0
FoundFitting none = Unit
FoundFitting (some id) = Fitting id

of_tokens-Fitting : (before after : Str) → FoundFitting (of_tokens before after)
unfolding of_tokens
of_tokens-Fitting before after =
    if_cases FoundFitting (is_nonempty before && is_nonempty after && is_simple before)
      (λ e. record {
        router_fits = length-strncpy-le 127 before;
        group_fits = length-strncpy-le 63 after;
        some_group =
            strncpy_some 62 after
              (middle (is_nonempty before) (is_nonempty after) (is_simple before) e);
        first_slot = refl;
      })
      (λ e. tt)
  where
    strncpy_some : (n : ℕ) (s : Str) → is_nonempty s ≡ true → 0 < length (strncpy (suc n) s)
    strncpy_some n [] h = cc
    strncpy_some n (b ∷ s) h = omega arith

    middle : (a b c : Bool) → (a && b && c) ≡ true → b ≡ true
    middle a b c e = ground arith

token_form-Fitting : (subject : Str) → FoundFitting (token_form subject)
unfolding token_form
token_form-Fitting subject = go (split_at b':' subject)
  where
    go :
        (o : Option (Str × Str))
        → FoundFitting (elim o as (λ x. Option Identity) [
          | none ↦ none
          | some (before, after) ↦ of_tokens before after
        ])
    go none = tt
    go (some (before, after)) = of_tokens-Fitting before after

pub from_cert_subject-Fitting : (subject : Str) → Fitting (from_cert_subject subject)
unfolding from_cert_subject
from_cert_subject-Fitting subject = go (token_form subject) (token_form-Fitting subject)
  where
    go :
        (o : Option Identity)
        → FoundFitting o
        → Fitting (elim o as (λ x. Identity) [ some id ↦ id | none ↦ dn_form subject ])
    go none f = dn_form-Fitting subject
    go (some id) f = f

-- An identity that is read from a certificate has a router name of at most 127 bytes, a group of 1
-- to 63 bytes and the first parameter as its slot.
pub from_x509-Fitting : (cert : Certificate) (id : Identity) → from_x509 cert ≡ some id → Fitting id
unfolding from_x509
from_x509-Fitting cert id e = subst FoundFitting e (
    by_name (dn_get_nid 127 (cert.entry common_name))
      (length-dn_get_nid-le 127 (cert.entry common_name)))
  where
    by_line :
        (o : Option Str)
        → FoundFitting (elim o as (λ x. Option Identity) [
          | none ↦ none
          | some line ↦ some (from_cert_subject line)
        ])
    by_line none = tt
    by_line (some line) = from_cert_subject-Fitting line

    by_name :
        (cn : Str)
        → length cn ≤ 127
        → FoundFitting (elim cn as (λ x. Option Identity) [
          | [] ↦ elim cert.oneline as (λ x. Option Identity) [
            | none ↦ none
            | some line ↦ some (from_cert_subject line)
          ]
          | b ∷ bs ↦ some (record {
            router_id = b ∷ bs;
            group = or_else (dn_get_nid 63 (cert.entry organizational_unit)) (codes "default");
            identity_slot = pos 0;
          })
        ])
    by_name [] h = by_line cert.oneline
    by_name (b ∷ bs) h = record {
      router_fits = h;
      group_fits =
          or_else-le 63 (dn_get_nid 63 (cert.entry organizational_unit)) (codes "default")
            (length-dn_get_nid-le 63 (cert.entry organizational_unit)) (omega arith);
      some_group =
          or_else-some (dn_get_nid 63 (cert.entry organizational_unit)) (codes "default")
            (omega arith);
      first_slot = refl;
    }
