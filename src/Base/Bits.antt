-- ===== src/Base/Bits.antt =====
-- The C operators ^ and | on bytes.
use Prim.Native.Nat.{
  ℕ, zero, suc, ◌/◌, ◌%◌, ◌≤◌, ◌<◌, max, bit_xor, bit_or, bit_xor-bitwise, bit_or-bitwise, digits,
  differ,
}
use mathlib.Core.Path.{◌≡◌, refl, ap, ap₂, sym, ◌∙◌}
use mathlib.Core.List.{List, [], ◌∷◌}
use native.Mathlib.Omega.{arith}
use pqproxy.Base.Lists.{length}

differ_zero : (p q : ℕ) → p < 2 → q < 2 → differ p q ≡ 0 → p ≡ q
differ_zero zero zero h k e = refl
differ_zero zero (suc q) h k e = sym e
differ_zero (suc zero) zero h k e = e
differ_zero (suc zero) (suc zero) h k e = refl
differ_zero (suc zero) (suc (suc q)) h k e = absurd (omega arith)
differ_zero (suc (suc p)) q h k e = absurd (omega arith)

differ-differ : (p q : ℕ) → p < 2 → q < 2 → (differ (differ p q) q ≡ p) × (differ p q < 2)
differ-differ zero zero h k = (refl, omega arith)
differ-differ zero (suc zero) h k = (refl, omega arith)
differ-differ (suc zero) zero h k = (refl, omega arith)
differ-differ (suc zero) (suc zero) h k = (refl, omega arith)
differ-differ p (suc (suc q)) h k = absurd (omega arith)
differ-differ (suc (suc p)) q h k = absurd (omega arith)

differ_self : (p : ℕ) → differ p p ≡ 0
differ_self zero = refl
differ_self (suc p) = differ_self p

abbrev xor : ℕ → ℕ → ℕ → ℕ
xor = digits (λ b. b) differ

xor_zero : (n a b : ℕ) → a ≤ n → xor n a b ≡ 0 → a ≡ b
xor_zero zero a b h e = omega (arith, e)
xor_zero (suc n) zero b h e = sym e
xor_zero (suc n) (suc a) b h e =
    let rec = xor_zero n (suc a / 2) (b / 2) (omega arith) (omega (arith, e)) in
    let low = differ_zero (suc a % 2) (b % 2) (omega arith) (omega arith) (omega (arith, e)) in
    omega (arith, rec, low)

xor_self : (n a : ℕ) → a ≤ n → xor n a a ≡ 0
xor_self zero a h = omega arith
xor_self (suc n) zero h = refl
xor_self (suc n) (suc a) h =
    omega (arith, xor_self n (suc a / 2) (omega arith), differ_self (suc a % 2))

-- Twice the same mask gives the number back.
xor_cancel : (n m a b : ℕ) → a ≤ n → xor n a b ≤ m → xor m (xor n a b) b ≡ a
xor_cancel zero m a b h k = xor_self m b k ∙ omega arith
xor_cancel (suc n) m zero b h k = xor_self m b k
xor_cancel (suc n) m (suc a) b h k =
    step (λ m'. xor_cancel n m' (suc a / 2) (b / 2) (omega arith)) m (xor (suc n) (suc a) b) refl k
  where
    step :
        ((m : ℕ)
          → xor n (suc a / 2) (b / 2) ≤ m
          → xor m (xor n (suc a / 2) (b / 2)) (b / 2) ≡ suc a / 2)
        → (m x : ℕ) → xor (suc n) (suc a) b ≡ x
        → x ≤ m
        → xor m x b ≡ suc a
    step more zero zero e k = sym (xor_zero (suc n) (suc a) b h e)
    step more (suc m) zero e k = sym (xor_zero (suc n) (suc a) b h e)
    step more zero (suc x) e k = absurd (omega arith)
    step more (suc m) (suc x) e k =
        let (low, bit) = differ-differ (suc a % 2) (b % 2) (omega arith) (omega arith) in
        let high : suc x / 2 ≡ xor n (suc a / 2) (b / 2) = omega (arith, e, bit) in
        let rem : suc x % 2 ≡ differ (suc a % 2) (b % 2) = omega (arith, e, bit) in
        omega (
          arith,
          ap (λ y. xor m y (b / 2)) high,
          more m (omega (arith, high)),
          ap (λ y. differ y (b % 2)) rem,
          low,
        )

or_zero : (n a b : ℕ) → a ≤ n → digits (λ b. b) max n a b ≡ 0 → (a ≡ 0) × (b ≡ 0)
or_zero zero a b h e = (omega arith, e)
or_zero (suc n) zero b h e = (refl, e)
or_zero (suc n) (suc a) b h e =
    let (high, low) = or_zero n (suc a / 2) (b / 2) (omega arith) (omega (arith, e)) in
    omega (arith, high, low, e)

xor_digits : (a b : ℕ) → bit_xor a b ≡ xor a a b
xor_digits a b = λ i. bit_xor-bitwise a b i

or_digits : (a b : ℕ) → bit_or a b ≡ digits (λ b. b) max a a b
or_digits a b = λ i. bit_or-bitwise a b i

pub bit_xor-cancel : (a b : ℕ) → bit_xor (bit_xor a b) b ≡ a
bit_xor-cancel a b =
    xor_digits (bit_xor a b) b
    ∙ ap (λ x. xor x x b) (xor_digits a b)
    ∙ xor_cancel a (xor a a b) a b (omega arith) (omega arith)

pub bit_xor-zero : (a b : ℕ) → bit_xor a b ≡ 0 → a ≡ b
bit_xor-zero a b e = xor_zero a a b (omega arith) (sym (xor_digits a b) ∙ e)

pub bit_or-zero : (a b : ℕ) → bit_or a b ≡ 0 → (a ≡ 0) × (b ≡ 0)
bit_or-zero a b e = or_zero a a b (omega arith) (sym (or_digits a b) ∙ e)

pub bit_xor_self : (a : ℕ) → bit_xor a a ≡ 0
bit_xor_self a = xor_digits a a ∙ xor_self a a (omega arith)

-- `for (i ...) out[i] = a[i] ^ b[i];`
unfoldable pub xor_bytes : List ℕ → List ℕ → List ℕ
xor_bytes [] ys = []
xor_bytes (x ∷ xs) [] = []
xor_bytes (x ∷ xs) (y ∷ ys) = bit_xor x y ∷ xor_bytes xs ys

-- `for (i ...) diff |= a[i] ^ b[i];`
unfoldable pub difference : ℕ → List ℕ → List ℕ → ℕ
difference diff [] ys = diff
difference diff (x ∷ xs) [] = diff
difference diff (x ∷ xs) (y ∷ ys) = difference (bit_or diff (bit_xor x y)) xs ys

pub xor_bytes-cancel :
    (xs ys : List ℕ) → length xs ≤ length ys → xor_bytes (xor_bytes xs ys) ys ≡ xs
unfolding xor_bytes
xor_bytes-cancel [] ys h = refl
xor_bytes-cancel (x ∷ xs) [] h = absurd (omega arith)
xor_bytes-cancel (x ∷ xs) (y ∷ ys) h =
    ap₂ ◌∷◌ (bit_xor-cancel x y) (xor_bytes-cancel xs ys (omega arith))

difference-zero :
    (d : ℕ) (xs ys : List ℕ) → length xs ≡ length ys → difference d xs ys ≡ 0 → (d ≡ 0) × (xs ≡ ys)
unfolding difference
difference-zero d [] [] h e = (e, refl)
difference-zero d [] (y ∷ ys) h e = absurd (omega (arith, h))
difference-zero d (x ∷ xs) [] h e = absurd (omega (arith, h))
difference-zero d (x ∷ xs) (y ∷ ys) h e =
    let (now, rest) = difference-zero (bit_or d (bit_xor x y)) xs ys (omega (arith, h)) e in
    let (before, here) = bit_or-zero d (bit_xor x y) now in
    (before, ap₂ ◌∷◌ (bit_xor-zero x y here) rest)

pub difference-eq : (xs ys : List ℕ) → length xs ≡ length ys → difference 0 xs ys ≡ 0 → xs ≡ ys
difference-eq xs ys h e = (difference-zero 0 xs ys h e).1

pub difference_self : (xs : List ℕ) → difference 0 xs xs ≡ 0
unfolding difference
difference_self [] = refl
difference_self (x ∷ xs) =
    ap (λ d. difference (bit_or 0 d) xs xs) (bit_xor_self x) ∙ difference_self xs
