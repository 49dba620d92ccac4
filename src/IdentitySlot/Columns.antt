-- ===== src/IdentitySlot/Columns.antt =====
-- The column list of an INSERT statement, and the position that the parser finds in it.
use pqproxy.Base.{
  ℕ, zero, suc, ◌+◌, ◌≤◌, ◌<◌, ◌≡◌, refl, sym, ap, ap₂, ◌∙◌, inl, inr, ◌⊎◌, Bool, true, false, ◌&&◌,
  ◌||◌, leb, not, List, [], ◌∷◌, ◌++◌, Option, none, some, Str, ◌==◌, if◌then◌else◌, length,
  length-append, arith,
}
use pqproxy.IdentitySlot.{
  is_ident_char, to_lower, is_blank, name_eq_ci, at_values, scan, skip_blanks, plain_name,
  column_name, skip_to_delimiter, find_column,
}

-- A byte of an unquoted column name.
abbrev is_plain : ℕ → Bool
is_plain c = is_ident_char c && not (c == b'"')

abbrev AllB : (ℕ → Bool) → Str → Type 0
AllB p [] = Unit {0}
AllB p (c ∷ s) = (p c ≡ true) × AllB p s

-- One column: the blanks before its name, and the name.
pub record Column : Type 0 where
  pub blanks : Str
  pub first : ℕ
  pub others : Str

abbrev pub name_of : Column → Str
name_of c = c.first ∷ c.others

-- The blanks are blanks, and the name is an identifier that fits the parser's buffer.
pub record IsColumn (c : Column) : Type 0 where
  pub blank : AllB is_blank c.blanks
  pub plain : AllB is_plain (name_of c)
  pub short : length (name_of c) ≤ 63

abbrev pub AllColumns : List Column → Type 0
AllColumns [] = Unit {0}
AllColumns (c ∷ cs) = IsColumn c × AllColumns cs

-- The text of a column list from behind its `(`; `rest` is what follows the `)`.
unfoldable pub list_text : Column → List Column → Str → Str
list_text c [] rest = c.blanks ++ (name_of c ++ b')' ∷ rest)
list_text c (d ∷ cs) rest = c.blanks ++ (name_of c ++ b',' ∷ list_text d cs rest)

abbrev is_upper : ℕ → Bool
is_upper c = leb b'A' c && leb c b'Z'

-- The same byte, or the same letter in upper and lower case.
abbrev pub same_letter : ℕ → ℕ → Bool
same_letter a b = a == b || is_upper a && b == a + 32 || is_upper b && a == b + 32

-- Two names that differ in the case of letters at most.
unfoldable pub same_name : Str → Str → Bool
same_name [] [] = true
same_name [] (b ∷ y) = false
same_name (a ∷ x) [] = false
same_name (a ∷ x) (b ∷ y) = same_letter a b && same_name x y

to_lower-same_letter : (a b : ℕ) → (to_lower a == to_lower b) ≡ same_letter a b
to_lower-same_letter a b = ground arith

name_eq_ci-same_name : (x y : Str) → name_eq_ci x y ≡ same_name x y
unfolding name_eq_ci same_name
name_eq_ci-same_name [] [] = refl
name_eq_ci-same_name [] (b ∷ y) = refl
name_eq_ci-same_name (a ∷ x) [] = refl
name_eq_ci-same_name (a ∷ x) (b ∷ y) =
    ap₂ ◌&&◌ (to_lower-same_letter a b) (name_eq_ci-same_name x y)

-- The position, from `idx` on, of the first column with the name, in any case of the letters.
unfoldable pub position : Str → ℕ → List Column → Option ℕ
position param idx [] = none
position param idx (c ∷ cs) =
    if same_name (name_of c) param then some idx else position param (idx + 1) cs

skip_blanks-append :
    (b : Str) (c : ℕ) (s : Str)
    → AllB is_blank b
    → is_plain c ≡ true
    → skip_blanks (b ++ c ∷ s) ≡ c ∷ s
unfolding skip_blanks
skip_blanks-append [] c s h p = ground arith
skip_blanks-append (x ∷ b) c s h p = rw (h.0) (skip_blanks-append b c s h.1 p)

plain_name-append :
    (n room : ℕ) (name : Str) (d : ℕ) (s : Str)
    → AllB is_plain name
    → is_plain d ≡ false
    → length name ≤ room
    → plain_name room (name ++ d ∷ s) ≡ (name, d ∷ s)
unfolding plain_name
plain_name-append n zero [] d s h p l = refl
plain_name-append n (suc room) [] d s h p l = rw p
plain_name-append n zero (c ∷ name) d s h p l = absurd (omega arith)
plain_name-append n (suc room) (c ∷ name) d s h p l =
    rw (plain_name-append n room name d s h.1 p (omega arith), h.0)

column_name-append :
    (c : Column) (d : ℕ) (s : Str)
    → IsColumn c
    → is_plain d ≡ false
    → column_name (name_of c ++ d ∷ s) ≡ (name_of c, d ∷ s)
unfolding column_name
column_name-append c d s h p =
    ground (arith, plain_name-append 0 63 (name_of c) d s h.plain p h.short, h.plain.0)

-- One round of the loop at a column, up to its delimiter `d`.
find_column_step :
    (fuel : ℕ) (c : Column) (d : ℕ) (s param : Str) (idx : ℕ)
    → IsColumn c
    → (d ≡ b',') ⊎ (d ≡ b')')
    → find_column (suc fuel) (c.blanks ++ (name_of c ++ d ∷ s)) param idx ≡ (
        if same_name (name_of c) param
        then some idx
        else (if d == b',' then find_column fuel s param (idx + 1) else none))
unfolding find_column skip_to_delimiter
find_column_step fuel c d s param idx h delim =
    rw
      (
        skip_blanks-append c.blanks c.first _ h.blank h.plain.0,
        column_name-append c d s h (ground arith),
        sym (name_eq_ci-same_name (name_of c) param),
      )
      (ground (arith, h.plain.0))

-- The loop finds the position of the name, and goes on to the end of the list if it is not there.
pub find_column-list_text :
    (fuel : ℕ) (c : Column) (cs : List Column) (rest param : Str) (idx : ℕ)
    → AllColumns (c ∷ cs)
    → length cs < fuel
    → find_column fuel (list_text c cs rest) param idx ≡ position param idx (c ∷ cs)
unfolding list_text position
find_column-list_text zero c cs rest param idx h enough = absurd (omega arith)
find_column-list_text (suc fuel) c [] rest param idx h enough =
    find_column_step fuel c b')' rest param idx h.0 (inr refl)
find_column-list_text (suc fuel) c (d ∷ cs) rest param idx h enough =
    find_column_step fuel c b',' (list_text d cs rest) param idx h.0 (inl refl)
    ∙ rw (find_column-list_text fuel d cs rest param (idx + 1) h.1 (omega arith)) refl

-- A text that is longer than its list of columns.
pub length-list_text :
    (c : Column) (cs : List Column) (rest : Str) → length cs < length (list_text c cs rest)
unfolding list_text
length-list_text c [] rest =
    omega (
      arith,
      length-append c.blanks (name_of c ++ b')' ∷ rest),
      length-append c.others (b')' ∷ rest),
    )
length-list_text c (d ∷ cs) rest = omega (
  arith,
  length-append c.blanks (name_of c ++ b',' ∷ list_text d cs rest),
  length-append c.others (b',' ∷ list_text d cs rest),
  length-list_text d cs rest,
)

-- VALUES begins at no byte of `s`, where `tail` follows it.
abbrev pub NoValues : Str → Str → Type 0
NoValues [] tail = Unit {0}
NoValues (c ∷ s) tail = (at_values (c ∷ (s ++ tail)) ≡ false) × NoValues s tail

abbrev pub NoParen : Str → Type 0
NoParen [] = Unit {0}
NoParen (c ∷ s) = ((c == b'(') ≡ false) × NoParen s

-- The scan passes a text without VALUES and parentheses, and keeps what it found before.
pub scan-append :
    (s tail : Str) (p : ℕ) (cols : Option ℕ)
    → NoValues s tail
    → NoParen s
    → scan (s ++ tail) p cols ≡ scan tail (p + length s) cols
unfolding scan
scan-append [] tail p cols v n = ap (λ k. scan tail k cols) (omega arith)
scan-append (c ∷ s) tail p cols v n =
    rw (v.0, n.0)
      (scan-append s tail (p + 1) cols v.1 n.1 ∙ ap (λ k. scan tail k cols) (omega arith))

pub scan_paren :
    (s : Str) (p : ℕ) (cols : Option ℕ)
    → at_values (b'(' ∷ s) ≡ false
    → scan (b'(' ∷ s) p cols ≡ scan s (p + 1) (some (p + 1))
unfolding scan
scan_paren s p cols v = rw v

pub scan_values :
    (s : Str) (p : ℕ) (cols : Option ℕ)
    → (at_values s ≡ true) ⊎ (s ≡ [])
    → scan s p cols ≡ (cols, p)
unfolding scan
scan_values [] p cols h = refl
scan_values (c ∷ s) p cols (inl h) = rw h
scan_values (c ∷ s) p cols (inr h) = cc
