-- ===== src/Rewrite/Inject.antt =====
-- What reaches the backend for a client's Bind: the verified identity in its slot, or nothing.
use pqproxy.Base.{
  ℕ, ◌<◌, ◌≡◌, refl, inl, inr, true, false, ◌||◌, [], ◌∷◌, some, pos, Str, leb, length, set, arith,
  Bool-cases, Option-cases, ◌==◌,
}
use pqproxy.Pique.{Prepared}
use pqproxy.Pique.Wire.{
  Bind, Call, Wire, WireApi, WireLaws, sent, bound, text_param, send_parse,
  send_bind_rewrite_identity, send_bind, send_execute, send_sync,
}
use pqproxy.StmtCache.{Cache, get}
use pqproxy.Identity.{Identity}
use pqproxy.Rewrite.{on_bind, bind_prepared, bind_slot, finish_pipeline, rewrite_or_inject}

-- The pipeline that a successful on_bind queued on top of the history `w`: Parse of the cached text,
-- one Bind whose identity slot holds the router id and whose other values are the client's, Execute
-- and Sync, all under the unnamed statement and portal.
pub record Injected (w : Wire) (cache : Cache) (bind : Bind) (id : Identity) (w' : Wire)
    : Type 0 where
  pub prep : Prepared
  pub known : get cache bind.statement ≡ some prep
  pub in_range : bind_slot id prep < length bind.params
  pub binding : Call
  pub overwritten :
      bound binding
      ≡ some ([], [], set bind.params (bind_slot id prep) (text_param id.router_id (pos 0)))
  pub queued :
      sent w'
      ≡ send_sync
        ∷ send_execute [] 0
        ∷ binding
        ∷ send_parse [] prep.query prep.param_type_oids prep.n_param_types
        ∷ sent w

finish-sent :
    (api : WireApi) (w w' : Wire)
    → finish_pipeline api w ≡ (true, w')
    → sent w' ≡ send_sync ∷ send_execute [] 0 ∷ sent w
unfolding finish_pipeline sent
finish-sent api w w' e = ground arith

-- The Bind message that the rewrite, or the fallback, queued.
rewrite-sent :
    {api : WireApi} (laws : WireLaws api) (w w' : Wire) (bind : Bind) (slot : ℕ) (router_id : Str)
    → rewrite_or_inject api w bind slot router_id ≡ (true, w')
    → (binding : Call) × (bound binding
        ≡ some ([], [], set bind.params slot (text_param router_id (pos 0))))
      × (sent w' ≡ send_sync ∷ send_execute [] 0 ∷ binding ∷ sent w)
unfolding rewrite_or_inject sent
rewrite-sent {api} laws w w' bind slot router_id e =
    let c = send_bind_rewrite_identity bind [] [] slot router_id (pos 0) in
    elim (Bool-cases (api.answer w c)) [
      | inl a ↦ (c, refl, ground arith)
      | inr a ↦ elim (Option-cases (api.inject bind slot router_id (pos 0))) [
        | inl n ↦ absurd (ground arith)
        | inr (params, f) ↦ (
          send_bind [] [] params bind.result_formats,
          ground (arith, laws.injects bind slot router_id (pos 0) params f),
          ground arith,
        )
      ]
    ]

abbrev parse_call : Prepared → Call
parse_call prep = send_parse [] prep.query prep.param_type_oids prep.n_param_types

prepared_parts :
    (api : WireApi) (w w' : Wire) (bind : Bind) (id : Identity) (prep : Prepared)
    → bind_prepared api w bind id prep ≡ (true, w')
    → (bind_slot id prep < length bind.params)
      × (api.answer w (parse_call prep) ≡ true)
      × (rewrite_or_inject api ((parse_call prep, true) ∷ w) bind (bind_slot id prep) id.router_id
          ≡ (true, w'))
unfolding bind_prepared
prepared_parts api w w' bind id prep e =
    elim (Bool-cases (length bind.params == 0 || leb (length bind.params) (bind_slot id prep))) [
      | inl out ↦ absurd (ground arith)
      | inr inside ↦ elim (Bool-cases (api.answer w (parse_call prep))) [
        | inl a ↦ (ground arith, a, rw a at (rw inside at e))
        | inr a ↦ absurd (ground arith)
      ]
    ]

-- If on_bind accepts a Bind, its statement is cached, the bind slot is one of its parameters, and
-- the backend's context has accepted exactly Parse with the cached SQL, a Bind whose parameter at
-- the bind slot is the certificate's identity, whatever the client put there, and whose other
-- parameters are the client's, Execute and Sync; a rewriting Bind that the context refused may
-- stand before that Bind.
pub on_bind-Injected :
    {api : WireApi} (laws : WireLaws api) (w w' : Wire) (cache : Cache) (bind : Bind)
    (id : Identity)
    → on_bind api w cache bind id ≡ (true, w')
    → Injected w cache bind id w'
unfolding on_bind sent
on_bind-Injected {api} laws w w' cache bind id e = elim (Option-cases (get cache bind.statement)) [
  | inl n ↦ absurd (ground arith)
  | inr (prep, k) ↦
      let (in_range, parsed, rest) = prepared_parts api w w' bind id prep (rw (k, on_bind) at e) in
      let (binding, overwritten, queued) =
        rewrite-sent laws ((parse_call prep, true) ∷ w) w' bind (bind_slot id prep) id.router_id
          rest in
      record {
        prep = prep;
        known = k;
        in_range = in_range;
        binding = binding;
        overwritten = overwritten;
        queued = queued;
      }
]

in_range_test :
    (bind : Bind) (slot : ℕ)
    → slot < length bind.params
    → (length bind.params == 0 || leb (length bind.params) slot) ≡ false
in_range_test bind slot h = ground arith

-- A Bind of a cached statement with a parameter at the bind slot is accepted, if the backend's
-- context accepts all calls.
pub on_bind_accepts :
    (api : WireApi) (w : Wire) (cache : Cache) (bind : Bind) (id : Identity) (prep : Prepared)
    → ((v : Wire) (c : Call) → api.answer v c ≡ true)
    → get cache bind.statement ≡ some prep
    → bind_slot id prep < length bind.params
    → (on_bind api w cache bind id).0 ≡ true
unfolding on_bind rewrite_or_inject
on_bind_accepts api w cache bind id prep accepts k inside =
    rw (k, on_bind) (rw (in_range_test bind _ inside) (simp accepts))
