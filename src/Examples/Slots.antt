-- ===== src/Examples/Slots.antt =====
-- Resolving a column name in a statement, and runs of the parser.
use pqproxy.Base.{◌≡◌, refl, [], ◌∷◌, ℤ, pos, negsuc, codes, Str, arith}
use pqproxy.Base.Atoi.{atoi, digits, skip_spaces}
use pqproxy.IdentitySlot.{
  resolve_identity_slot, scan, at_values, name_eq_ci, find_column, skip_blanks, plain_name,
  skip_to_delimiter, or_fallback, all_digit,
}
use pqproxy.IdentitySlot.Columns.{position, list_text, same_name}
use pqproxy.IdentitySlot.Insert.{Insert, IsInsert, IsColumnName, text_of, resolve-position}

abbrev pub insert_events : Insert
insert_events = record {
  before = codes "INSERT INTO events";
  first = record { blanks = []; first = b'p'; others = codes "ayload" };
  others = record { blanks = codes " "; first = b'R'; others = codes "outer_ID" } ∷ [];
  gap = codes " ";
  tail = codes "VALUES ($1, $2)";
}

pub insert_events-IsInsert : IsInsert insert_events
unfolding list_text at_values
insert_events-IsInsert = record {
  columns = ground arith;
  values = refl;
  before_values = ground arith;
  before_paren = ground arith;
  list_values = ground arith;
  list_paren = ground arith;
}

pub router_id-IsColumnName : IsColumnName (codes "router_id")
unfolding all_digit
router_id-IsColumnName = record {
  head = b'r';
  rest = codes "outer_id";
  is = refl;
  no_dollar = refl;
  no_number = refl;
}

resolve-position_example :
    resolve_identity_slot (text_of insert_events) (codes "router_id") (negsuc 0)
    ≡ or_fallback
        (negsuc 0)
        (position (codes "router_id") 0 (insert_events.first ∷ insert_events.others))
resolve-position_example =
    resolve-position insert_events (codes "router_id") (negsuc 0) insert_events-IsInsert
      router_id-IsColumnName

-- The calls of the repository's test, and the position of the example.
resolves : ℤ → Str → ℤ
resolves fallback param =
    resolve_identity_slot (codes "INSERT INTO events(router_id, payload, ts) VALUES ($1, $2, $3)")
      param fallback

runs : Unit {0}
unfolding resolves resolve_identity_slot scan at_values find_column skip_blanks plain_name
    skip_to_delimiter name_eq_ci same_name all_digit or_fallback atoi digits skip_spaces list_text
    position
runs = tt

test_router_id : resolves (negsuc 0) (codes "router_id") ≡ pos 0
unfolding runs
test_router_id = refl

test_ts : resolves (negsuc 0) (codes "ts") ≡ pos 2
unfolding runs
test_ts = refl

test_number : resolves (negsuc 0) (codes "1") ≡ pos 1
unfolding runs
test_number = refl

test_dollar : resolves (negsuc 0) (codes "$2") ≡ pos 1
unfolding runs
test_dollar = refl

test_missing : resolves (pos 7) (codes "missing") ≡ pos 7
unfolding runs
test_missing = refl

-- A table whose name ends in VALUES: the search stops there, and no column is found.
sensor_values :
    resolve_identity_slot
      (codes "INSERT INTO sensor_values (a, router_id) VALUES ($1, $2)")
      (codes "router_id")
      (pos 7)
    ≡ pos 7
unfolding runs
sensor_values = refl
