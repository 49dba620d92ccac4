-- ===== src/Scram/Fields.antt =====
-- The fields of the server's messages: reading one passes the fields before it.
use pqproxy.Base.{
  ℕ, zero, suc, ◌≤◌, ◌≡◌, refl, true, false, ◌&&◌, [], ◌∷◌, ◌++◌, Str, ◌==◌, length, arith,
}
use pqproxy.Base.Atoi.{is_digit}
use pqproxy.Base.Members.{contains}
use pqproxy.Scram.Exchange.{after_pair, field, digits_field}

-- The bytes `a` and `b` stand nowhere side by side.
abbrev pub NoPair : ℕ → ℕ → Str → Type 0
NoPair a b [] = Unit {0}
NoPair a b (x ∷ []) = Unit {0}
NoPair a b (x ∷ y ∷ s) = ((x == a && y == b) ≡ false) × NoPair a b (y ∷ s)

pub cons-NoPair : (a b x : ℕ) (s : Str) → (x == a) ≡ false → NoPair a b s → NoPair a b (x ∷ s)
cons-NoPair a b x [] e h = tt
cons-NoPair a b x (y ∷ s) e h = (ground (arith, e), h)

pub contains-NoPair : (a b x : ℕ) (s : Str) → contains b s ≡ false → NoPair a b (x ∷ s)
unfolding contains
contains-NoPair a b x [] h = tt
contains-NoPair a b x (y ∷ s) h = (ground arith, contains-NoPair a b y s (ground arith))

-- A text without the pair is passed, if the next byte does not end the pair.
pub after_pair-append :
    (a b : ℕ) (u : Str) (c : ℕ) (t : Str)
    → NoPair a b u
    → (c == b) ≡ false
    → after_pair a b (u ++ c ∷ t) ≡ after_pair a b (c ∷ t)
unfolding after_pair
after_pair-append a b [] c t h e = refl
after_pair-append a b (x ∷ []) c t h e = ground (arith, e)
after_pair-append a b (x ∷ y ∷ u) c t h e = rw (h.0) (after_pair-append a b (y ∷ u) c t h.1 e)

-- A field ends at its comma.
pub field-append :
    (n : ℕ) (s t : Str) → contains b',' s ≡ false → length s ≤ n → field n (s ++ b',' ∷ t) ≡ s
unfolding field contains
field-append zero [] t h l = refl
field-append (suc n) [] t h l = refl
field-append zero (c ∷ s) t h l = absurd (omega arith)
field-append (suc n) (c ∷ s) t h l =
    rw (field-append n s t (ground arith) (omega arith)) (ground arith)

abbrev pub AllDigits : Str → Type 0
AllDigits [] = Unit {0}
AllDigits (c ∷ s) = (is_digit c ≡ true) × AllDigits s

-- A text of digits is read to its end.
pub digits_field_self : (n : ℕ) (s : Str) → AllDigits s → length s ≤ n → digits_field n s ≡ s
unfolding digits_field
digits_field_self zero [] h l = refl
digits_field_self (suc n) [] h l = refl
digits_field_self zero (c ∷ s) h l = absurd (omega arith)
digits_field_self (suc n) (c ∷ s) h l = rw (h.0, digits_field_self n s h.1 (omega arith))
