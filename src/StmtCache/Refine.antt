-- ===== src/StmtCache/Refine.antt =====
-- The cache against what it promises: a map of at most 64 names. Clients see the map only.
use mathlib.Core.Path.{ap₂}
use pqproxy.Base.{
  ℕ, ◌+◌, ◌-◌, ◌<◌, ◌≡◌, ◌≢◌, refl, ap, inl, inr, ◌⊎◌, Bool, true, false, ◌∙◌, List, [], ◌∷◌, ◌||◌,
  Option, none, some, ℤ, Str, str_eq, str_eq_iff, arith, if◌then◌else◌, Bool-cases, ltb,
  Option-cases,
}
use pqproxy.Pique.{Parse, Prepared, PrepareApi, Fits, Copied, PrepareLaws}
use pqproxy.StmtCache.{Cache, max_cached_stmts, init, get, put, remove}
use pqproxy.StmtCache.Invariant.{Inv, init-Inv, get-init}
use pqproxy.StmtCache.Put.{Stored, fresh_count, put-Stored, put-full}
use pqproxy.StmtCache.Remove.{remove-Removed, remove_missing, count-init}

-- The calls that change the cache.
pub data Op : Type 0 where
  puts : Parse → ℤ → Op
  removes : Str → Op

pub step : PrepareApi → Cache → Op → Bool × Cache
step api c (puts p slot) = put api c p slot
step api c (removes name) = remove api c name

-- The replies to a client's calls in order, and the cache after them.
pub run : PrepareApi → Cache → List Op → List Bool × Cache
unfolding step
run api c [] = ([], c)
run api c (op ∷ ops) =
    let (done, c') = step api c op in let (replies, end) = run api c' ops in (done ∷ replies, end)

-- A map of names to entries, with the number of its names.
pub record Table : Type 0 where
  pub entries : Str → Option Prepared
  pub size : ℕ

-- What a Parse message and a slot say.
abbrev pub entry_of : Parse → ℤ → Prepared
entry_of p slot = record {
  name = p.statement;
  query = p.query;
  n_param_types = p.n_param_types;
  param_type_oids = p.param_type_oids;
  identity_param_slot = slot;
}

abbrev pub is_some : Option Prepared → Bool
is_some none = false
is_some (some s) = true

abbrev pub update : (Str → Option Prepared) → Str → Option Prepared → Str → Option Prepared
update f k v q = if str_eq k q then v else f q

-- A put of a known name, or of a new one below 64, writes; a remove of a known name clears; all
-- other calls are refused and change nothing.
pub table_step : Table → Op → Bool × Table
table_step m (puts p slot) =
    if is_some (m.entries p.statement) || ltb m.size max_cached_stmts
    then (
      true,
      record {
        entries = update m.entries p.statement (some (entry_of p slot));
        size = m.size + fresh_count (m.entries p.statement);
      },
    )
    else (false, m)
table_step m (removes name) =
    if is_some (m.entries name)
    then (true, record { entries = update m.entries name none; size = m.size - 1 })
    else (false, m)

pub table_run : Table → List Op → List Bool × Table
unfolding table_step
table_run m [] = ([], m)
table_run m (op ∷ ops) =
    let (done, m') = table_step m op in
    let (replies, end) = table_run m' ops in (done ∷ replies, end)

abbrev pub empty_table : Table
empty_table = record { entries = λ q. none; size = 0 }

-- The texts of a call fit the buffers of a Parse message.
abbrev pub OpFits : PrepareApi → Op → Type 0
OpFits api (puts p slot) = Fits api p
OpFits api (removes name) = Unit {0}

abbrev pub OpsFit : PrepareApi → List Op → Type 0
OpsFit api [] = Unit {0}
OpsFit api (op ∷ ops) = OpFits api op × OpsFit api ops

pub record Models (api : PrepareApi) (c : Cache) (m : Table) : Type 0 where
  pub inv : Inv api c
  pub reads : (q : Str) → get c q ≡ m.entries q
  pub size : c.count ≡ m.size

abbrev pub SameReply : PrepareApi → Bool × Cache → Bool × Table → Type 0
SameReply api r s = (r.0 ≡ s.0) × Models api r.1 s.1

eq_entry_of :
    (p : Parse) (slot : ℤ) (s : Prepared)
    → Copied p s
    → s.identity_param_slot ≡ slot
    → s ≡ entry_of p slot
eq_entry_of p slot s c e = λ i. record {
  name = c.name i;
  query = c.query i;
  n_param_types = c.n_param_types i;
  param_type_oids = c.param_type_oids i;
  identity_param_slot = e i;
}

module _ {api : PrepareApi} (laws : PrepareLaws api) {c : Cache} {m : Table}
    (v : Models api c m) where
  writes_same :
      (p : Parse) (slot : ℤ)
      → Stored api c p slot (put api c p slot)
      → SameReply api (put api c p slot) (
        true,
        record {
          entries = update m.entries p.statement (some (entry_of p slot));
          size = m.size + fresh_count (m.entries p.statement);
        },
      )
  writes_same p slot st = (
    st.done,
    record {
      inv = st.inv;
      reads = λ q. elim (Bool-cases (str_eq p.statement q)) [
        | inl e ↦
            rw (e, ← (str_eq_iff p.statement q).0 e)
              (st.reads ∙ ap some (eq_entry_of p slot st.entry st.copied st.identity))
        | inr e ↦ rw e (st.others q (λ s. ground (arith, str_eq_iff p.statement q)) ∙ v.reads q)
      ];
      size = st.counts ∙ ap₂ ◌+◌ v.size (ap fresh_count (v.reads p.statement));
    },
  )

  has_room :
      (p : Parse)
      → (is_some (m.entries p.statement) || ltb m.size max_cached_stmts) ≡ true
      → (get c p.statement ≢ none) ⊎ (c.count < max_cached_stmts)
  has_room p t = elim (Option-cases (m.entries p.statement)) [
    | inr (s, e) ↦ inl (λ n. cc (v.reads p.statement))
    | inl e ↦ inr (ground (arith, v.size))
  ]

  put_same :
      (p : Parse) (slot : ℤ)
      → Fits api p
      → SameReply api (put api c p slot) (table_step m (puts p slot))
  unfolding table_step
  put_same p slot fit =
      elim (Bool-cases (is_some (m.entries p.statement) || ltb m.size max_cached_stmts)) [
        | inl t ↦ rw t (writes_same p slot (put-Stored laws v.inv p slot fit (has_room p t)))
        | inr t ↦
            rw
              (
                t,
                put-full laws v.inv p slot fit (ground (arith, v.reads p.statement))
                    (ground (arith, v.size)),
              )
              (refl, v)
      ]

  remove_same : (name : Str) → SameReply api (remove api c name) (table_step m (removes name))
  unfolding table_step
  remove_same name = elim (Bool-cases (is_some (m.entries name))) [
    | inr t ↦ rw (t, remove_missing api c name (ground (arith, v.reads name))) (refl, v)
    | inl t ↦
        let r = remove-Removed laws v.inv name (λ n. ground (arith, v.reads name)) in
        rw t (
          r.done,
          record {
            inv = r.inv;
            reads = λ q. elim (Bool-cases (str_eq name q)) [
              | inl e ↦ rw (e, ← (str_eq_iff name q).0 e) r.gone
              | inr e ↦ rw e (r.others q (λ s. ground (arith, str_eq_iff name q)) ∙ v.reads q)
            ];
            size = omega (arith, r.counts, v.size);
          },
        )
  ]

  step_same : (op : Op) → OpFits api op → SameReply api (step api c op) (table_step m op)
  unfolding step
  step_same (puts p slot) fit = put_same p slot fit
  step_same (removes name) fit = remove_same name

-- Any calls in any order get the map's replies, and leave a cache that reads as the map.
pub run_refines :
    {api : PrepareApi} (laws : PrepareLaws api) (ops : List Op) {c : Cache} {m : Table}
    → Models api c m
    → OpsFit api ops
    → ((run api c ops).0 ≡ (table_run m ops).0) × Models api (run api c ops).1 (table_run m ops).1
unfolding run table_run
run_refines laws [] v fit = (refl, v)
run_refines laws (op ∷ ops) v fit =
    let (reply, v') = step_same laws v op fit.0 in
    let (replies, end) = run_refines laws ops v' fit.1 in (ap₂ ◌∷◌ reply replies, end)

init-Models : (api : PrepareApi) → Models api init empty_table
init-Models api = record { inv = init-Inv api; reads = get-init api; size = count-init }

-- Any sequence of puts and removes whose texts fit their buffers gives, from the empty cache, the
-- replies of an ideal table of at most 64 entries, and leaves a well-formed cache that reads every
-- name as the table does and counts its entries.
pub run-init_refines :
    {api : PrepareApi} (laws : PrepareLaws api) (ops : List Op)
    → OpsFit api ops
    → ((run api init ops).0 ≡ (table_run empty_table ops).0)
      × Models api (run api init ops).1 (table_run empty_table ops).1
run-init_refines {api} laws ops fit = run_refines laws ops (init-Models api) fit
