-- ===== src/Groups/Shares.antt =====
-- Every group gets its share of the slots.
use native.Mathlib.Nat.{mod-lt, div-add-mod', le-div_iff_mul-le}
use pqproxy.Base.{
  ℕ, suc, ◌+◌, ◌-◌, ◌*◌, ◌/◌, ◌%◌, ◌^◌, ◌≤◌, ◌<◌, ◌≡◌, refl, ap, ◌∙◌, min, Bool, true, false, List,
  [], ◌∷◌, ◌++◌, Str, ltb, if_cases, if_true, if_false, lt→ltb, length, length-append,
  length-replicate, replicate, arith,
}
use pqproxy.Groups.{pool_sizes, share, group_slots, warm_users}

-- The slots of the groups when there are enough: those of each group together.
abbrev pub shared : ℕ → ℕ → ℕ → List Str → List Str
shared per extra g [] = []
shared per extra g (name ∷ names) =
    replicate (share per extra g) name ++ shared per extra (g + 1) names

-- A group's share fits what is left, and leaves the shares of the others.
share-left :
    (per extra left g others : ℕ)
    → per * suc others + (extra - g) ≡ left
    → extra ≤ g + suc others
    → (share per extra g ≤ left) × (per * others + (extra - (g + 1)) ≡ left - share per extra g)
share-left per extra left g others e h =
    let product : per * suc others ≡ per * others + per = omega arith in
    if_cases
      (λ bonus. (per + bonus ≤ left) × (per * others + (extra - (g + 1)) ≡ left - (per + bonus)))
      (ltb g extra) (λ k. ground (arith, e, h, k, product)) (λ k. ground (arith, e, h, k, product))

group_slots-shared :
    (per extra left g : ℕ) (names : List Str)
    → per * length names + (extra - g) ≡ left
    → extra ≤ g + length names
    → (group_slots per extra left g names ≡ shared per extra g names)
      × (length (shared per extra g names) ≡ left)
unfolding group_slots
group_slots-shared per extra left g [] e h = (refl, omega (arith, e))
group_slots-shared per extra left g (name ∷ names) e h =
    let k : ℕ = share per extra g in
    let (fits, left') = share-left per extra left g (length names) e h in
    let whole : min k left ≡ k = omega (arith, fits) in
    let (same, size) =
      group_slots-shared per extra (left - k) (g + 1) names left' (omega (arith, h)) in
    (
      ap (λ c. replicate c name ++ group_slots per extra (left - c) (g + 1) names) whole
          ∙ ap (λ xs. replicate k name ++ xs) same,
      length-append (replicate k name) (shared per extra (g + 1) names)
          ∙ omega (arith, length-replicate k name, size, fits),
    )

warm_users-shared :
    (n : ℕ) (groups : List Str) (user : Str)
    → 1 ≤ length groups
    → length groups ≤ n
    → (warm_users n groups true user ≡ shared (n / length groups) (n % length groups) 0 groups)
      × (length (warm_users n groups true user) ≡ n)
      × (1 ≤ n / length groups)
unfolding warm_users
warm_users-shared n groups user some_groups enough =
    let per : ℕ = n / length groups in
    let extra : ℕ = n % length groups in
    let one_each : 1 ≤ per = (le-div_iff_mul-le some_groups).1 (omega arith) in
    let (same, size) =
      group_slots-shared per extra n 0 groups (omega (arith, div-add-mod' n (length groups)))
        (omega (arith, mod-lt n some_groups)) in
    let grouped : warm_users n groups true user ≡ group_slots per extra n 0 groups =
      if_true (replicate n user) (lt→ltb 0 (length groups) some_groups)
      ∙ ap (λ p. group_slots p extra n 0 groups) (if_false 1 (ground arith)) in
    (grouped ∙ same, ap length (grouped ∙ same) ∙ size, one_each)

pool_sizes-within :
    (pool_size n_groups : ℕ) (lazy_connect : Bool)
    → 1 ≤ n_groups
    → n_groups ≤ 16
    → pool_size + 16 < 2 ^ 64
    → (n_groups ≤ (pool_sizes pool_size n_groups true lazy_connect).0)
      × ((pool_sizes pool_size n_groups true lazy_connect).0
          ≤ (pool_sizes pool_size n_groups true lazy_connect).1)
      × ((pool_sizes pool_size n_groups true lazy_connect).1 ≤ 64)
unfolding pool_sizes
pool_sizes-within pool_size n_groups true h k small = ground arith
pool_sizes-within pool_size n_groups false h k small = ground arith

-- With logins as groups, 1 to 16 groups and a pool size whose sum with 16 does not wrap, the pool
-- has at most 64 connections, warms no more than it has, and its slots go to the groups in order,
-- to each the n-th part of them rounded down, which is not 0, and one more to the first of them as
-- far as the rest goes.
pub pool-shared :
    (pool_size : ℕ) (groups : List Str) (lazy_connect : Bool) (user : Str)
    → 1 ≤ length groups
    → length groups ≤ 16
    → pool_size + 16 < 2 ^ 64
    → (n : ℕ) × (max_conns : ℕ) × (pool_sizes pool_size (length groups) true lazy_connect
        ≡ (n, max_conns))
      × (n ≤ max_conns)
      × (max_conns ≤ 64)
      × (1 ≤ n / length groups)
      × (length (warm_users n groups true user) ≡ n)
      × (warm_users n groups true user ≡ shared (n / length groups) (n % length groups) 0 groups)
pool-shared pool_size groups lazy_connect user some_groups few small =
    let sizes : ℕ × ℕ = pool_sizes pool_size (length groups) true lazy_connect in
    let (enough, within, most) =
      pool_sizes-within pool_size (length groups) lazy_connect some_groups few small in
    let (same, size, each) = warm_users-shared sizes.0 groups user some_groups enough in
    (sizes.0, sizes.1, refl, within, most, each, size, same)
