-- ===== src/Identity.antt =====
-- src/identity.c: who the client is, by the subject of its certificate. The certificate is OpenSSL's.
pub mod Subject
pub mod Tokens
use pqproxy.Base.{
  ℕ, zero, suc, Bool, true, false, ◌&&◌, ◌||◌, not, List, [], ◌∷◌, Option, none, some, ℤ, pos,
  negsuc, Str, codes, strncpy, ◌==◌, if◌then◌else◌, take, length,
}

pub record Identity : Type 0 where
  pub router_id : Str
  pub group : Str
  pub identity_slot : ℤ

-- pqproxy_identity_clear
unfoldable pub clear : Identity
clear = record { router_id = []; group = []; identity_slot = negsuc 0 }

-- What the code reads of a certificate: the bytes of the first entry of a kind, and the subject on
-- one line.
pub data Nid : Type 0 where
  common_name organizational_unit : Nid

pub record Certificate : Type 0 where
  pub entry : Nid → Option (List ℕ)
  pub oneline : Option Str

-- `strchr`: the text before the byte, and the text after it.
unfoldable pub split_at : ℕ → Str → Option (Str × Str)
split_at c [] = none
split_at c (b ∷ s) =
    let rest : Option (Str × Str) = elim (split_at c s) [
      | none ↦ none
      | some (before, after) ↦ some (b ∷ before, after)
    ] in
    if b == c then some ([], s) else rest

unfoldable pub starts_with : Str → Str → Bool
starts_with [] s = true
starts_with (a ∷ x) [] = false
starts_with (a ∷ x) (b ∷ s) = a == b && starts_with x s

-- `strstr`: the text from the first match on, and the byte before it.
unfoldable pub find_from : Str → Option ℕ → Str → Option (Option ℕ × Str)
find_from needle last [] = if starts_with needle [] then some (last, []) else none
find_from needle last (b ∷ s) =
    let rest = find_from needle (some b) s in
    if starts_with needle (b ∷ s) then some (last, b ∷ s) else rest

-- The bytes up to a NUL, which is how the copied bytes of an entry are read.
unfoldable pub until_nul : List ℕ → Str
until_nul [] = []
until_nul (b ∷ s) = let rest = until_nul s in if b == 0 then [] else b ∷ rest

-- copy_field into `size` bytes.
unfoldable pub copy_field : ℕ → List ℕ → Str
unfolding until_nul
copy_field size src = until_nul (take size src)

-- dn_get_nid, into a buffer of `size + 1` bytes that holds the empty string: what it then holds.
unfoldable pub dn_get_nid : ℕ → Option (List ℕ) → Str
unfolding copy_field
dn_get_nid size none = []
dn_get_nid size (some bytes) = copy_field size bytes

-- No `/` and no `=`.
unfoldable pub is_simple : Str → Bool
is_simple [] = true
is_simple (b ∷ s) = not (b == b'/' || b == b'=') && is_simple s

abbrev pub is_nonempty : Str → Bool
is_nonempty [] = false
is_nonempty (b ∷ s) = true

-- The identity of the two parts of `router_id:group`. A part that begins with `/` is not simple.
unfoldable pub of_tokens : Str → Str → Option Identity
of_tokens before after =
    if is_nonempty before && is_nonempty after && is_simple before
    then some
        (record { router_id = strncpy 127 before; group = strncpy 63 after; identity_slot = pos 0 })
    else none

-- The form `router_id:group`.
unfoldable pub token_form : Str → Option Identity
unfolding of_tokens
token_form subject = elim (split_at b':' subject) [
  | none ↦ none
  | some (before, after) ↦ of_tokens before after
]

-- The value of an attribute that begins at `attr`: from behind the `=` to the next `/`.
unfoldable pub attribute : ℕ → Str → Str
attribute size attr = elim (split_at b'=' attr) [
  | none ↦ []
  | some (name, start) ↦ elim (split_at b'/' start) [
    | none ↦ strncpy size start
    | some (value, more) ↦ strncpy size value
  ]
]

-- Where the common name begins: `/CN=` anywhere, else `CN=` at the start or behind a `/`.
unfoldable pub find_cn : Str → Option Str
find_cn subject = elim (find_from (codes "/CN=") none subject) [
  | some (last, cn) ↦ some cn
  | none ↦ elim (find_from (codes "CN=") none subject) [
    | none ↦ none
    | some (none, cn) ↦ some cn
    | some (some b, cn) ↦ if b == b'/' then some cn else none
  ]
]

-- Where the organizational unit begins: `/OU=` anywhere, else `OU=` anywhere.
unfoldable pub find_ou : Str → Option Str
find_ou subject = elim (find_from (codes "/OU=") none subject) [
  | some (last, ou) ↦ some ou
  | none ↦ elim (find_from (codes "OU=") none subject) [ none ↦ none | some (last, ou) ↦ some ou ]
]

-- The attribute at a position, or the empty text.
abbrev pub attribute_at : ℕ → Option Str → Str
attribute_at size none = []
attribute_at size (some attr) = attribute size attr

abbrev pub or_else : Str → Str → Str
or_else [] other = other
or_else (b ∷ s) other = b ∷ s

-- The OpenSSL form `/CN=router/OU=group/…`, and what stands in for what it lacks.
unfoldable pub dn_form : Str → Identity
unfolding attribute find_cn find_ou
dn_form subject = record {
  router_id = or_else (attribute_at 127 (find_cn subject)) (strncpy 127 subject);
  group = or_else (attribute_at 63 (find_ou subject)) (codes "default");
  identity_slot = pos 0;
}

-- pqproxy_identity_from_cert_subject, which always returns 0.
unfoldable pub from_cert_subject : Str → Identity
unfolding token_form dn_form
from_cert_subject subject = elim (token_form subject) [ some id ↦ id | none ↦ dn_form subject ]

-- pqproxy_identity_from_x509, none for -1.
unfoldable pub from_x509 : Certificate → Option Identity
unfolding dn_get_nid from_cert_subject
from_x509 cert = elim (dn_get_nid 127 (cert.entry common_name)) [
  | [] ↦ elim cert.oneline [ none ↦ none | some line ↦ some (from_cert_subject line) ]
  | b ∷ cn ↦ some (record {
    router_id = b ∷ cn;
    group = or_else (dn_get_nid 63 (cert.entry organizational_unit)) (codes "default");
    identity_slot = pos 0;
  })
]
