-- ===== src/Rewrite/Placed.antt =====
-- From a Parse to a Bind of the statement: the identity goes to the column that was named.
use pqproxy.Base.{
  ℕ, ◌<◌, ◌^◌, ◌≡◌, refl, sym, ap, subst, ◌∙◌, false, [], ◌∷◌, some, ℤ, pos, is_nonneg, Str,
  to_int16, arith,
}
use pqproxy.Pique.{Parse, Prepared, PrepareApi}
use pqproxy.Pique.Wire.{Call, Wire, WireApi, send_parse}
use pqproxy.StmtCache.{Cache, put, get}
use pqproxy.StmtCache.Put.{Stored}
use pqproxy.Identity.{Identity}
use pqproxy.IdentitySlot.{or_fallback, resolve_identity_slot}
use pqproxy.IdentitySlot.Columns.{position}
use pqproxy.IdentitySlot.Insert.{Insert, IsInsert, IsColumnName, text_of, resolve-position}
use pqproxy.Rewrite.{bind_slot, parse_slot, on_parse_ex}

to_int16-small : (k : ℕ) → k < 2 ^ 15 → to_int16 (pos k) ≡ pos k
to_int16-small k h = ground arith

pub bind_slot-cached :
    (id : Identity) (s : Prepared) (k : ℕ)
    → is_nonneg id.identity_slot ≡ false
    → s.identity_param_slot ≡ pos k
    → bind_slot id s ≡ k
unfolding bind_slot
bind_slot-cached id s k none_own h = rw (none_own, h) refl

-- The slot that a Parse of an INSERT is cached with.
pub parse_slot-position :
    (i : Insert) (p : Parse) (slot : ℤ) (param : Str) (k : ℕ)
    → p.query ≡ text_of i
    → IsInsert i
    → IsColumnName param
    → position param 0 (i.first ∷ i.others) ≡ some k
    → k < 2 ^ 15
    → parse_slot p slot param ≡ pos k
unfolding or_fallback parse_slot
parse_slot-position i p slot param k q insert name at small =
    subst (λ s. parse_slot p slot s ≡ pos k) (sym name.is)
      (chosen (
        ap (λ t. resolve_identity_slot t (name.head ∷ name.rest) slot) q
        ∙ ap (λ s. resolve_identity_slot (text_of i) s slot) (sym name.is)
        ∙ resolve-position i param slot insert name
        ∙ subst (λ o. or_fallback slot o ≡ pos k) (sym at) found))
  where
    found : or_fallback slot (some k) ≡ pos k
    found = to_int16-small k small

    chosen :
        resolve_identity_slot p.query (name.head ∷ name.rest) slot ≡ pos k
        → parse_slot p slot (name.head ∷ name.rest) ≡ pos k
    chosen e = rw e refl

-- What a Parse stored is in the cache that it leaves.
pub get-on_parse_ex :
    {prep : PrepareApi} {cache : Cache} {p : Parse} (slot : ℤ) (param : Str) (api : WireApi)
    (front : Wire)
    (st : Stored prep cache p
      (parse_slot p slot param)
      (put prep cache p (parse_slot p slot param)))
    → get (on_parse_ex prep api front cache p slot param).1 p.statement ≡ some st.entry
unfolding on_parse_ex
get-on_parse_ex slot param api front st = rw st.done st.reads

abbrev call_of : Prepared → Call
call_of s = send_parse [] s.query s.param_type_oids s.n_param_types
