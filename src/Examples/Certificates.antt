-- ===== src/Examples/Certificates.antt =====
-- A certificate with a common name and a unit, and one whose subject is `router-7:region_east`.
use pqproxy.Base.{◌≡◌, refl, none, some, pos, codes, arith, true, ◌++◌, ◌∷◌}
use pqproxy.Identity.{
  Identity, Certificate, common_name, organizational_unit, copy_field, dn_get_nid, until_nul,
  from_cert_subject, from_x509, token_form, of_tokens, split_at, is_simple, dn_form, find_cn,
  find_ou, attribute, find_from, starts_with,
}
use pqproxy.Identity.Subject.{Fitting, from_x509-Fitting}
use pqproxy.Identity.Tokens.{from_cert_subject-tokens, is_token}

abbrev router_7 : Certificate
router_7 = record {
  entry = λ nid. elim nid [ common_name ↦ some (codes "router-7") | organizational_unit ↦ none ];
  oneline = none;
}

abbrev identity_7 : Identity
identity_7 = record { router_id = codes "router-7"; group = codes "default"; identity_slot = pos 0 }

reads_7 : from_x509 router_7 ≡ some identity_7
unfolding from_x509 dn_get_nid copy_field until_nul
reads_7 = refl

from_x509-Fitting_example : Fitting identity_7
from_x509-Fitting_example = from_x509-Fitting router_7 identity_7 reads_7

simple_7 : is_token (codes "router-7") ≡ true
unfolding is_token
simple_7 = refl

from_cert_subject-tokens_example :
    from_cert_subject (codes "router-7" ++ b':' ∷ codes "region_east")
    ≡ record { router_id = codes "router-7"; group = codes "region_east"; identity_slot = pos 0 }
from_cert_subject-tokens_example =
    from_cert_subject-tokens (codes "router-7") (codes "region_east") refl refl simple_7
      (omega arith) (omega arith)

-- The line form, in which a second attribute stands before the unit.
reads_line :
    from_cert_subject (codes "/CN=r1/C=IS/OU=east")
    ≡ record { router_id = codes "r1"; group = codes "east"; identity_slot = pos 0 }
unfolding from_cert_subject token_form of_tokens split_at is_simple dn_form find_cn find_ou
    attribute find_from starts_with
reads_line = refl
