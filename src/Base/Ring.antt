-- ===== src/Base/Ring.antt =====
-- A fixed array read as a ring: the items from an index on, going round at the end.
use native.Mathlib.Nat.{mod-lt, mod-eq_of_lt, mod-add-mod, mod-eq-sub-mod}
use Prim.Native.Nat.{ℕ, zero, suc, ◌+◌, ◌-◌, ◌%◌, ◌≤◌, ◌<◌}
use mathlib.Core.Path.{◌≡◌, refl, sym, ap, ap₂, ◌∙◌}
use mathlib.Core.Logic.{◌≢◌}
use mathlib.Core.List.{List, [], ◌∷◌, ◌++◌}
use native.Mathlib.Decide.{dec_lt}
use native.Mathlib.Omega.{arith}
use pqproxy.Base.Lists.{length, get_or, set, get_or-set_self, get_or-set_ne}

module _ {ℓ} {A : Type ℓ} (empty : A) (cap : ℕ) where
  -- The `n` items at `(head + k) % cap`, `(head + k + 1) % cap`, and so on.
  unfoldable pub items : List A → ℕ → ℕ → ℕ → List A
  items buf head k zero = []
  items buf head k (suc n) = get_or buf ((head + k) % cap) empty ∷ items buf head (k + 1) n

  module _ (buf : List A) (head : ℕ) where
    pub length-items : (k n : ℕ) → length (items buf head k n) ≡ n
    unfolding items
    length-items k zero = refl
    length-items k (suc n) = ap suc (length-items (k + 1) n)

    -- The last item.
    pub items_snoc :
        (k n : ℕ)
        → items buf head k (suc n)
          ≡ items buf head k n ++ get_or buf ((head + (k + n)) % cap) empty ∷ []
    unfolding items
    items_snoc k zero = ap (λ j. get_or buf ((head + j) % cap) empty ∷ []) (omega arith)
    items_snoc k (suc n) = ap (◌∷◌ (get_or buf ((head + k) % cap) empty)) (
        items_snoc (k + 1) n
        ∙ ap (λ j. items buf head (k + 1) n ++ get_or buf ((head + j) % cap) empty ∷ [])
            (omega arith))

    -- A write at an index that the items do not reach.
    pub items-set :
        (i : ℕ) (v : A) (k n : ℕ)
        → ((j : ℕ) → k ≤ j → j < k + n → i ≢ (head + j) % cap)
        → items (set buf i v) head k n ≡ items buf head k n
    unfolding items
    items-set i v k zero out = refl
    items-set i v k (suc n) out =
        ap₂ ◌∷◌ (get_or-set_ne buf v empty (out k (omega arith) (omega arith)))
          (items-set i v (k + 1) n (λ j lo hi. out j (omega arith) (omega arith)))

    -- Starting from the next index.
    pub items_shift : (k n : ℕ) → items buf ((head + 1) % cap) k n ≡ items buf head (k + 1) n
    unfolding items
    items_shift k zero = refl
    items_shift k (suc n) =
        ap₂ ◌∷◌
          (ap (λ j. get_or buf j empty)
            (mod-add-mod (head + 1) cap k ∙ ap (λ j. j % cap) (omega arith)))
          (items_shift (k + 1) n)

  -- Two offsets below `cap` are at different indices.
  pub offset_ne :
      (head j k : ℕ) → head < cap → j < k → k < cap → (head + j) % cap ≢ (head + k) % cap
  offset_ne head j k h lo hi = elim (dec_lt (head + k) cap) [
    | yes p ↦ omega (
      arith,
      mod-eq_of_lt {n = head + k} {m = cap} p,
      mod-eq_of_lt {n = head + j} {m = cap} (omega arith),
    )
    | no p ↦ elim (dec_lt (head + j) cap) [
      | yes q ↦ omega (
        arith,
        mod-eq_of_lt {n = head + j} {m = cap} q,
        mod-eq-sub-mod {n = head + k} {m = cap} (omega arith),
        mod-eq_of_lt {n = head + k - cap} {m = cap} (omega arith),
      )
      | no q ↦ omega (
        arith,
        mod-eq-sub-mod {n = head + j} {m = cap} (omega arith),
        mod-eq_of_lt {n = head + j - cap} {m = cap} (omega arith),
        mod-eq-sub-mod {n = head + k} {m = cap} (omega arith),
        mod-eq_of_lt {n = head + k - cap} {m = cap} (omega arith),
      )
    ]
  ]

  at_self : (h : ℕ) → h < cap → (h + 0) % cap ≡ h
  at_self h lt = ap (λ j. j % cap) (omega arith) ∙ mod-eq_of_lt lt

  prev_lt : (head : ℕ) → head < cap → (head + cap - 1) % cap < cap
  prev_lt head lt = mod-lt _ (omega arith)

  next_prev : (head : ℕ) → head < cap → ((head + cap - 1) % cap + 1) % cap ≡ head
  next_prev head lt =
      mod-add-mod (head + cap - 1) cap 1
      ∙ ap (λ j. j % cap) (omega arith)
      ∙ mod-eq-sub-mod {n = head + cap} {m = cap} (omega arith)
      ∙ ap (λ j. j % cap) (omega arith)
      ∙ mod-eq_of_lt lt

  module _ (buf : List A) (head n : ℕ) (room : n < cap) (start : head < cap)
      (wide : length buf ≡ cap) (v : A) where
    -- Writing at the end appends.
    pub items-set_end :
        items (set buf ((head + n) % cap) v) head 0 (suc n) ≡ items buf head 0 n ++ v ∷ []
    items-set_end =
        items_snoc (set buf ((head + n) % cap) v) head 0 n
        ∙ ap₂ (λ xs x. xs ++ x ∷ [])
            (items-set buf head ((head + n) % cap) v 0 n
              (λ j lo hi e. offset_ne head j n start (omega arith) room (sym e)))
            (ap (λ j. get_or (set buf ((head + n) % cap) v) (j % cap) empty) (omega arith)
              ∙ get_or-set_self buf ((head + n) % cap) v empty (rw wide (mod-lt _ (omega arith))))

    -- Writing at the index before the first prepends.
    pub items-set_front :
        items (set buf ((head + cap - 1) % cap) v) ((head + cap - 1) % cap) 0 (suc n)
        ≡ v ∷ items buf head 0 n
    unfolding items
    items-set_front =
        let h = (head + cap - 1) % cap in
        ap₂ ◌∷◌
          (ap (λ j. get_or (set buf h v) j empty) (at_self h (prev_lt head start))
            ∙ get_or-set_self buf h v empty (rw wide (prev_lt head start)))
          (items-set buf h h v 1 n (λ j lo hi e.
              offset_ne h 0 j (prev_lt head start) (omega arith) (omega arith)
                (at_self h (prev_lt head start) ∙ e))
            ∙ sym (items_shift buf h 0 n)
            ∙ ap (λ k. items buf k 0 n) (next_prev head start))
