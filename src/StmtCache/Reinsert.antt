-- ===== src/StmtCache/Reinsert.antt =====
-- The rehash of pqproxy_stmt_cache_remove: putting saved entries into another cache.
use mathlib.Core.Option.{or_else}
use pqproxy.Base.{
  ℕ, suc, ◌+◌, ◌-◌, ◌≤◌, ◌<◌, ◌≡◌, refl, subst, ap, inl, inr, Bool, true, ◌∙◌, List, none, some,
  Str, str_eq, str_eq_iff, arith, if◌then◌else◌, Bool-cases, take_all, [], ◌∷◌,
}
use pqproxy.Pique.{Parse, Prepared, PrepareApi, Fits, Copied, PrepareLaws}
use pqproxy.StmtCache.{Slot, Cache, slot_at, max_cached_stmts, get, put, rebuilt, reinsert}
use pqproxy.StmtCache.Used.{
  used, one_if, Names, Names-cons, Unique, Unique-tail, Unique-head, lookup, lookup_tail,
}
use pqproxy.StmtCache.Invariant.{Inv, EntryFits}
use pqproxy.StmtCache.Put.{fresh_count, put-Stored}

-- The message that says what the entry holds.
abbrev parse_of : Prepared → Parse
parse_of s = record {
  statement = s.name;
  query = s.query;
  n_param_types = s.n_param_types;
  param_type_oids = s.param_type_oids;
}

-- The copies into the message do not cut an entry that fits.
pub rebuilt-parse_of :
    (api : PrepareApi) (s : Prepared) → EntryFits api s → rebuilt api s ≡ parse_of s
unfolding rebuilt
rebuilt-parse_of api s f = rw (
  take_all (api.stmt_cap - 1) s.name (omega (arith, f.name_fits)),
  take_all (api.query_cap - 1) s.query (omega (arith, f.query_fits)),
)

parse_of-Fits : {api : PrepareApi} (s : Prepared) → EntryFits api s → Fits api (parse_of s)
parse_of-Fits s f = record { name_fits = f.name_fits; query_fits = f.query_fits }

-- An entry copied from an entry's message, with its slot, is that entry.
eq_of_Copied :
    (s t : Prepared) → Copied (parse_of s) t → t.identity_param_slot ≡ s.identity_param_slot → t ≡ s
eq_of_Copied s t c e = λ i. record {
  name = c.name i;
  query = c.query i;
  n_param_types = c.n_param_types i;
  param_type_oids = c.param_type_oids i;
  identity_param_slot = e i;
}

-- All the entries of `old` are in the cache, over what it held.
pub record Reinserted (api : PrepareApi) (c : Cache) (old : List Slot) (r : Bool × Cache)
    : Type 0 where
  pub done : r.0 ≡ true
  pub inv : Inv api r.1
  pub counts : r.1.count ≡ c.count + used old
  pub reads : (q : Str) → get r.1 q ≡ or_else (lookup q old) (get c q)

-- Putting back one entry that the cache lacks.
record PutBack (api : PrepareApi) (c : Cache) (s : Prepared) (r : Bool × Cache) : Type 0 where
  done : r.0 ≡ true
  inv : Inv api r.1
  counts : r.1.count ≡ c.count + 1
  reads : (q : Str) → get r.1 q ≡ (if str_eq s.name q then some s else get c q)

module _ {api : PrepareApi} (laws : PrepareLaws api) where
  put-PutBack :
      {c : Cache} (s : Prepared)
      → Inv api c
      → EntryFits api s
      → get c s.name ≡ none
      → c.count < max_cached_stmts
      → PutBack api c s (put api c (rebuilt api s) s.identity_param_slot)
  put-PutBack {c} s inv f absent room =
      let st =
        put-Stored laws inv (parse_of s) s.identity_param_slot (parse_of-Fits s f) (inr room) in
      let same = eq_of_Copied s st.entry st.copied st.identity in
      rw (rebuilt-parse_of api s f) (record {
        done = st.done;
        inv = st.inv;
        counts = st.counts ∙ ap (λ o. c.count + fresh_count o) absent;
        reads = λ q. elim (Bool-cases (str_eq s.name q)) [
          | inl e ↦ rw e (
              subst (λ n. get (put api c (parse_of s) s.identity_param_slot).1 n ≡ some s)
                ((str_eq_iff s.name q).0 e) (st.reads ∙ ap some same))
          | inr e ↦ rw e (st.others q (λ p. ground (arith, str_eq_iff s.name q)))
        ];
      })

  pub reinsert-Reinserted :
      {c : Cache} (old : List Slot)
      → Inv api c
      → ((i : ℕ) → (slot_at old i).in_use ≡ true → EntryFits api (slot_at old i).stmt)
      → Unique old
      → ((q : Str) (i : ℕ) → Names old q i → get c q ≡ none)
      → c.count + used old ≤ max_cached_stmts
      → Reinserted api c old (reinsert api c old)
  unfolding reinsert lookup or_else
  reinsert-Reinserted [] inv fits unique apart room = record {
    done = refl;
    inv = inv;
    counts = omega arith;
    reads = λ q. refl;
  }
  reinsert-Reinserted {c} (s ∷ old) inv fits unique apart room = elim (Bool-cases s.in_use) [
    | inr e ↦
        let ih =
          reinsert-Reinserted {c = c} old inv (λ i. fits (suc i)) (Unique-tail unique)
            (λ q i m. apart q (suc i) (Names-cons m)) (omega (arith, ap one_if e)) in
        rw e (record {
          done = ih.done;
          inv = ih.inv;
          counts = omega (arith, ih.counts);
          reads = ih.reads;
        })
    | inl e ↦
        let back =
          put-PutBack {c = c} s.stmt inv (fits 0 e)
            (apart s.stmt.name 0 (record { in_use = e; name = refl }))
            (omega (arith, ap one_if e)) in
        let ih =
          reinsert-Reinserted {c = (put api c (rebuilt api s.stmt) s.stmt.identity_param_slot).1}
            old back.inv (λ i. fits (suc i)) (Unique-tail unique)
            (λ q i m. ground (
              arith,
              back.reads q,
              apart q (suc i) (Names-cons m),
              Unique-head s old q i unique e,
              m,
            ))
            (omega (arith, ap one_if e, back.counts)) in
        rw (e, back.done)
          (record {
            done = ih.done;
            inv = ih.inv;
            counts = omega (arith, ih.counts, back.counts);
            reads = λ q. ground (arith, ih.reads q, back.reads q, lookup_tail s old q unique e);
          })
  ]
