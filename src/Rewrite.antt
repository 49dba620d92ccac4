-- ===== src/Rewrite.antt =====
-- src/rewrite_engine.c, the message handlers: Parse is cached and acknowledged locally, Bind goes to
-- the backend as an unnamed pipeline with the identity in its slot, simple Query is refused.
pub mod Inject
pub mod Placed
use pqproxy.Base.{
  ℕ, zero, suc, Bool, true, false, ◌||◌, List, [], ◌∷◌, Option, none, some, ℤ, pos, negsuc,
  is_nonneg, Str, codes, leb, ltb, ◌==◌, if◌then◌else◌, length,
}
use pqproxy.Pique.{Parse, Prepared, PrepareApi}
use pqproxy.Pique.Wire.{
  Param, Bind, Call, Wire, WireApi, call, send_parse, send_bind_rewrite_identity, send_bind,
  send_execute, send_sync, send_parse_complete, send_error_response, send_ready_for_query,
}
use pqproxy.StmtCache.{Cache, put, get}
use pqproxy.IdentitySlot.{resolve_identity_slot}
use pqproxy.Identity.{Identity}

-- Make a call, and go on if it returned 0.
abbrev pub then_on : WireApi → Wire → Call → (Wire → Bool × Wire) → Bool × Wire
then_on api w c next = let (done, w') = call api w c in if done then next w' else (false, w')

-- `resolved >= 0 ? resolved : identity_slot`
choose_slot : ℤ → ℤ → ℤ
choose_slot resolved slot = if is_nonneg resolved then resolved else slot

-- The slot that a Parse message is cached with.
pub parse_slot : Parse → ℤ → Str → ℤ
unfolding choose_slot
parse_slot p slot [] = slot
parse_slot p slot (c ∷ name) = choose_slot (resolve_identity_slot p.query (c ∷ name) slot) slot

-- Whether the call returned 0, the cache and the frontend afterwards.
unfoldable pub on_parse_ex :
    PrepareApi → WireApi → Wire → Cache → Parse → ℤ → Str → Bool × Cache × Wire
on_parse_ex prep api frontend cache p slot name =
    let (stored, cache') = put prep cache p (parse_slot p slot name) in
    let (done, frontend') = call api frontend send_parse_complete in
    if stored then (done, cache', frontend') else (false, cache', frontend)

unfoldable pub on_parse : PrepareApi → WireApi → Wire → Cache → Parse → ℤ → Bool × Cache × Wire
on_parse prep api frontend cache p slot = on_parse_ex prep api frontend cache p slot []

-- `(uint16_t) slot`, for a slot that is not negative; a negative one becomes 0 first.
abbrev pub slot_or_zero : ℤ → ℕ
slot_or_zero (pos n) = n
slot_or_zero (negsuc n) = 0

-- The parameter that on_bind overwrites: the identity's slot, if it has one, else the statement's.
unfoldable pub bind_slot : Identity → Prepared → ℕ
bind_slot id prep =
    slot_or_zero (if is_nonneg id.identity_slot then id.identity_slot else prep.identity_param_slot)

-- Execute and Sync.
finish_pipeline : WireApi → Wire → Bool × Wire
finish_pipeline api w = then_on api w (send_execute [] 0) λ w'. call api w' send_sync

-- The fallback, with owned copies of the parameters.
send_injected : WireApi → Wire → Bind → Option (List Param) → Bool × Wire
unfolding finish_pipeline
send_injected api w bind none = (false, w)
send_injected api w bind (some params) =
    then_on api w (send_bind [] [] params bind.result_formats) (finish_pipeline api)

rewrite_or_inject : WireApi → Wire → Bind → ℕ → Str → Bool × Wire
unfolding finish_pipeline send_injected
rewrite_or_inject api w bind slot router_id =
    let (done, w') = call api w (send_bind_rewrite_identity bind [] [] slot router_id (pos 0)) in
    if done
    then finish_pipeline api w'
    else send_injected api w' bind (api.inject bind slot router_id (pos 0))

bind_prepared : WireApi → Wire → Bind → Identity → Prepared → Bool × Wire
unfolding bind_slot rewrite_or_inject
bind_prepared api backend bind id prep =
    let slot = bind_slot id prep in
    if length bind.params == 0 || leb (length bind.params) slot
    then (false, backend)
    else (then_on api backend (send_parse [] prep.query prep.param_type_oids prep.n_param_types)
        λ w. rewrite_or_inject api w bind slot id.router_id)

-- Whether the call returned 0, and the backend's context afterwards.
unfoldable pub on_bind : WireApi → Wire → Cache → Bind → Identity → Bool × Wire
unfolding bind_prepared
on_bind api backend cache bind id = elim (get cache bind.statement) [
  | none ↦ (false, backend)
  | some prep ↦ bind_prepared api backend bind id prep
]

simple_query_error : Bool → Call
simple_query_error true =
    send_error_response (codes "ERROR") (codes "0A000")
      (codes "simple Query disabled; use extended protocol")
simple_query_error false =
    send_error_response (codes "ERROR") (codes "0A000")
      (codes "simple Query allowed only with backend forward (not configured here)")

-- The SQL is not looked at.
unfoldable pub on_simple_query : WireApi → Wire → Bool → Str → Bool × Wire
unfolding simple_query_error
on_simple_query api frontend reject sql =
    then_on api frontend (simple_query_error reject) λ w. call api w send_ready_for_query
