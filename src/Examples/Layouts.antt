-- ===== src/Examples/Layouts.antt =====
-- Groups of a configuration, and the slots of a pool.
use pqproxy.Base.{
  ℕ, ◌/◌, ◌%◌, ◌≤◌, ◌≡◌, refl, true, List, [], ◌∷◌, none, some, Str, codes, length, arith, ◌==◌,
  if◌then◌else◌,
}
use pqproxy.Base.Members.{contains}
use pqproxy.Settings.Load.{Document, join_from}
use pqproxy.Groups.{parse_groups, trim_front, trim_back, pool_sizes, warm_users, group_slots}
use pqproxy.Groups.Listed.{AllGroups, joined, join_groups-parse_groups}
use pqproxy.Groups.Shares.{shared, pool-shared}

abbrev two_groups : List Str
two_groups = codes "readers" ∷ codes "writers" ∷ []

abbrev groups_document : Document
groups_document = record {
  error = none;
  scalar = λ path. none;
  child_count = λ path. 2;
  child = λ path i. if i == 0 then some (codes "readers") else some (codes "writers");
}

two_groups-AllGroups : AllGroups two_groups
unfolding contains trim_front trim_back
two_groups-AllGroups = (
  record { no_comma = refl; trimmed = refl; some_bytes = omega arith; short = omega arith },
  (record { no_comma = refl; trimmed = refl; some_bytes = omega arith; short = omega arith }, tt),
)

join_groups-parse_groups_example :
    (join_from groups_document [] 0 2 ≡ some (joined two_groups))
    × (parse_groups (joined two_groups) 16 ≡ two_groups)
join_groups-parse_groups_example =
    join_groups-parse_groups groups_document two_groups two_groups-AllGroups (omega arith)
      (omega arith) (refl, (refl, tt)) (omega arith)

two_groups-users :
    warm_users 5 two_groups true (codes "postgres")
    ≡ codes "readers" ∷ codes "readers" ∷ codes "readers" ∷ codes "writers" ∷ codes "writers" ∷ []
unfolding warm_users group_slots
two_groups-users = refl

pool-shared_example :
    (n : ℕ) × (max_conns : ℕ) × (pool_sizes 5 2 true true ≡ (n, max_conns))
    × (n ≤ max_conns)
    × (max_conns ≤ 64)
    × (1 ≤ n / 2)
    × (length (warm_users n two_groups true (codes "postgres")) ≡ n)
    × (warm_users n two_groups true (codes "postgres") ≡ shared (n / 2) (n % 2) 0 two_groups)
pool-shared_example =
    pool-shared 5 two_groups true (codes "postgres") (omega arith) (omega arith) (omega arith)
