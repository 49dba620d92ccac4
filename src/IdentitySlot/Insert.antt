-- ===== src/IdentitySlot/Insert.antt =====
-- The slot that a column name resolves to in a whole INSERT statement.
use pqproxy.Base.{
  ℕ, zero, suc, ◌+◌, ◌≡◌, refl, sym, ap, subst, ◌∙◌, inl, true, false, List, [], ◌∷◌, ◌++◌, none,
  some, ℤ, Str, ◌==◌, take, drop, length, arith,
}
use pqproxy.IdentitySlot.{
  at_values, scan, column_slot, or_fallback, all_digit, resolve_identity_slot,
}
use pqproxy.IdentitySlot.Columns.{
  Column, AllColumns, list_text, position, NoValues, NoParen, find_column-list_text,
  length-list_text, scan-append, scan_paren, scan_values,
}

-- A statement with a column list: the text before the list's `(`, the columns, the text between the
-- list's `)` and VALUES, and the text from VALUES on.
pub record Insert : Type 0 where
  pub before : Str
  pub first : Column
  pub others : List Column
  pub gap : Str
  pub tail : Str

abbrev pub list_of : Insert → Str
list_of i = list_text i.first i.others i.gap

unfoldable pub text_of : Insert → Str
text_of i = i.before ++ b'(' ∷ (list_of i ++ i.tail)

-- The parser stops at the tail. Nothing before it has the letters VALUES at the end of a word, not even
-- of a longer one such as sensor_values, and the only parenthesis that opens before it is the list's.
pub record IsInsert (i : Insert) : Type 0 where
  pub columns : AllColumns (i.first ∷ i.others)
  pub values : at_values i.tail ≡ true
  pub before_values : NoValues i.before (b'(' ∷ (list_of i ++ i.tail))
  pub before_paren : NoParen i.before
  pub list_values : NoValues (list_of i) i.tail
  pub list_paren : NoParen (list_of i)

-- A parameter name that is read as a column: not empty, not `$N`, not a number.
pub record IsColumnName (param : Str) : Type 0 where
  pub head : ℕ
  pub rest : Str
  pub is : param ≡ head ∷ rest
  pub no_dollar : (head == b'$') ≡ false
  pub no_number : all_digit param ≡ false

take-append_self : (a b : Str) (n : ℕ) → n ≡ length a → take n (a ++ b) ≡ a
take-append_self [] b zero e = refl
take-append_self [] b (suc n) e = absurd (omega arith)
take-append_self (x ∷ a) b zero e = absurd (omega arith)
take-append_self (x ∷ a) b (suc n) e = ap (◌∷◌ x) (take-append_self a b n (omega arith))

-- The text between two indices, where it stands behind `a` and one more byte.
region :
    (a : Str) (c : ℕ) (body tail : Str) (s e : ℕ)
    → s ≡ length a + 1
    → e ≡ s + length body
    → drop s (take e (a ++ c ∷ (body ++ tail))) ≡ body
region a c body tail zero e p q = absurd (omega arith)
region a c body tail (suc s) zero p q = absurd (omega arith)
region [] c body tail (suc zero) (suc e) p q = take-append_self body tail e (omega arith)
region [] c body tail (suc (suc s)) (suc e) p q = absurd (omega arith)
region (x ∷ a) c body tail (suc s) (suc e) p q =
    region a c body tail s e (omega arith) (omega arith)

paren_no_values : (s : Str) → at_values (b'(' ∷ s) ≡ false
unfolding at_values
paren_no_values s = refl

-- The scan stops at VALUES, behind the list that it found.
scan-text_of :
    (i : Insert)
    → IsInsert i
    → scan (text_of i) 0 none
      ≡ (some (length i.before + 1), length i.before + 1 + length (list_of i))
unfolding text_of
scan-text_of i h =
    scan-append i.before _ 0 none h.before_values h.before_paren
    ∙ scan_paren (list_of i ++ i.tail) _ none (paren_no_values _)
    ∙ scan-append (list_of i) i.tail _ _ h.list_values h.list_paren
    ∙ scan_values i.tail _ _ (inl h.values)
    ∙ ap (λ (n : ℕ). (some (n + 1), n + 1 + length (list_of i))) (omega arith)

region-text_of :
    (i : Insert)
    → drop (length i.before + 1) (take (length i.before + 1 + length (list_of i)) (text_of i))
      ≡ list_of i
unfolding text_of
region-text_of i = region i.before b'(' (list_of i) i.tail _ _ refl refl

resolve_column :
    (query : Str) (c : ℕ) (rest : Str) (fallback : ℤ)
    → (c == b'$') ≡ false
    → all_digit (c ∷ rest) ≡ false
    → resolve_identity_slot query (c ∷ rest) fallback
      ≡ column_slot query (c ∷ rest) fallback (scan query 0 none)
unfolding resolve_identity_slot
resolve_column query c rest fallback d n = rw (d, n)

column_slot-text_of :
    (i : Insert) (param : Str) (fallback : ℤ)
    → IsInsert i
    → column_slot (text_of i) param fallback (scan (text_of i) 0 none)
      ≡ or_fallback fallback (position param 0 (i.first ∷ i.others))
unfolding column_slot
column_slot-text_of i param fallback h =
    rw (scan-text_of i h, region-text_of i)
      (ap (or_fallback fallback) (
        find_column-list_text _ i.first i.others i.gap param 0 h.columns
          (omega (arith, length-list_text i.first i.others i.gap))))

-- In an INSERT statement with a list of plain columns, in which no word before the keyword VALUES
-- ends in these letters and no parenthesis but the list's opens before it, a column name resolves
-- to the position of the first column with the same letters, in upper or lower case, and a name
-- that is no column resolves to the fallback.
pub resolve-position :
    (i : Insert) (param : Str) (fallback : ℤ)
    → IsInsert i
    → IsColumnName param
    → resolve_identity_slot (text_of i) param fallback
      ≡ or_fallback fallback (position param 0 (i.first ∷ i.others))
resolve-position i param fallback h n =
    subst
      (λ p.
        resolve_identity_slot (text_of i) p fallback
        ≡ or_fallback fallback (position p 0 (i.first ∷ i.others)))
      (sym n.is)
      (resolve_column _ n.head n.rest fallback n.no_dollar
          (subst (λ p. all_digit p ≡ false) n.is n.no_number)
        ∙ column_slot-text_of i (n.head ∷ n.rest) fallback h)
