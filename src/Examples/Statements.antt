-- ===== src/Examples/Statements.antt =====
-- The statement cache: three statements, two of which share a first probe.
use pqproxy.Base.{
  ℕ, zero, suc, ◌≤◌, ◌<◌, ◌≡◌, ◌∙◌, inr, false, List, [], ◌∷◌, none, pos, codes, Str, arith,
}
use pqproxy.Pique.{Parse, Fits}
use pqproxy.StmtCache.{Cache, init, get, put, remove, max_cached_stmts}
use pqproxy.StmtCache.Invariant.{Inv, init-Inv, get-init}
use pqproxy.StmtCache.Put.{Stored, put-Stored, put-full}
use pqproxy.StmtCache.Remove.{Removed, remove-Removed, count-init}
use pqproxy.StmtCache.Refine.{
  Op, puts, removes, run, table_run, empty_table, Models, run-init_refines,
}
use pqproxy.Examples.Library.{copying, copying-PrepareLaws}

abbrev pub parse_named : Str → Parse
parse_named name = record {
  statement = name;
  query = codes "INSERT INTO events(payload, router_id) VALUES ($1, $2)";
  n_param_types = 0;
  param_type_oids = [];
}

abbrev pub st1 : Parse
st1 = parse_named (codes "st1")

pub st1-Fits : Fits copying st1
st1-Fits = record { name_fits = omega arith; query_fits = omega arith }

st2-Fits : Fits copying (parse_named (codes "st2"))
st2-Fits = record { name_fits = omega arith; query_fits = omega arith }

pub empty_room : init.count < max_cached_stmts
unfolding init
empty_room = omega arith

abbrev one_entry : Cache
one_entry = (put copying init st1 (pos 1)).1

pub st1_stored : Stored copying init st1 (pos 1) (put copying init st1 (pos 1))
st1_stored = put-Stored copying-PrepareLaws (init-Inv copying) st1 (pos 1) st1-Fits (inr empty_room)

put-Stored_example : Stored copying init st1 (pos 1) (put copying init st1 (pos 1))
put-Stored_example =
    put-Stored copying-PrepareLaws (init-Inv copying) st1 (pos 1) st1-Fits (inr empty_room)

remove-Removed_example :
    Removed copying one_entry (codes "st1") (remove copying one_entry (codes "st1"))
remove-Removed_example =
    remove-Removed copying-PrepareLaws st1_stored.inv (codes "st1") (λ e. cc (st1_stored.reads, e))

abbrev calls : List Op
calls =
    puts st1 (pos 1)
    ∷ puts (parse_named (codes "st2")) (pos 0)
    ∷ removes (codes "st1")
    ∷ removes (codes "st1")
    ∷ []

run-init_refines_example :
    ((run copying init calls).0 ≡ (table_run empty_table calls).0)
    × Models copying (run copying init calls).1 (table_run empty_table calls).1
run-init_refines_example =
    run-init_refines copying-PrepareLaws calls (st1-Fits, (st2-Fits, (tt, (tt, tt))))

-- A cache of `n` statements, under the names of one byte.
abbrev byte_named : ℕ → Parse
byte_named n = parse_named (n ∷ [])

filled : ℕ → Cache
filled zero = init
filled (suc n) = (put copying (filled n) (byte_named n) (pos 0)).1

byte-Fits : (n : ℕ) → Fits copying (byte_named n)
byte-Fits n = record { name_fits = omega arith; query_fits = omega arith }

record IsFilled (n : ℕ) : Type 0 where
  inv : Inv copying (filled n)
  size : (filled n).count ≡ n
  absent : (m : ℕ) → n ≤ m → get (filled n) (m ∷ []) ≡ none

filled_lem : (n : ℕ) → n ≤ 64 → IsFilled n
unfolding filled
filled_lem zero h = record {
  inv = init-Inv copying;
  size = count-init;
  absent = λ m le. get-init copying (m ∷ []);
}
filled_lem (suc n) h =
    let before = filled_lem n (omega arith) in
    let st =
      put-Stored copying-PrepareLaws before.inv (byte_named n) (pos 0) (byte-Fits n)
        (inr (omega (arith, before.size))) in
    record {
      inv = st.inv;
      size = st.counts ∙ rw (before.absent n (omega arith)) (omega (arith, before.size));
      absent =
          λ m le. st.others (m ∷ []) (λ e. head_apart m n le e) ∙ before.absent m (omega arith);
    }
  where
    head_apart : (m n : ℕ) → suc n ≤ m → ◌≡◌ {A = Str} (m ∷ []) (n ∷ []) → ⊥
    head_apart m n le e = ground arith

put-full_example : put copying (filled 64) (byte_named 65) (pos 0) ≡ (false, filled 64)
put-full_example =
    put-full copying-PrepareLaws (filled_lem 64 (omega arith)).inv (byte_named 65) (pos 0)
      (byte-Fits 65) ((filled_lem 64 (omega arith)).absent 65 (omega arith))
      (omega (arith, (filled_lem 64 (omega arith)).size))
