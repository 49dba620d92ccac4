-- ===== src/Groups/Listed.antt =====
-- The names of a configuration's sequence of groups are the groups of the pool.
use pqproxy.Base.{
  ℕ, zero, suc, ◌+◌, ◌≤◌, ◌<◌, ◌≡◌, refl, sym, ap, ap₂, subst, ◌∙◌, Bool, true, false, ◌&&◌, not,
  List, [], ◌∷◌, ◌++◌, Option, none, some, Str, leb, ◌==◌, if◌then◌else◌, if_false, length,
  length-append, drop, arith,
}
use mathlib.Core.List.{append_assoc, append-nil}
use pqproxy.Base.Members.{contains}
use pqproxy.Settings.Load.{Document, groups_key, join_name, join_from}
use pqproxy.Groups.{until_comma, trim, skip_comma, is_name, parse_from, parse_groups}

-- A name that parse_groups keeps as it is.
pub record IsGroup (name : Str) : Type 0 where
  pub no_comma : contains b',' name ≡ false
  pub trimmed : trim name ≡ name
  pub some_bytes : 1 ≤ length name
  pub short : length name < 64

abbrev pub AllGroups : List Str → Type 0
AllGroups [] = Unit
AllGroups (name ∷ names) = IsGroup name × AllGroups names

-- The names with commas between them.
abbrev pub after_name : List Str → Str
after_name [] = []
after_name (name ∷ names) = b',' ∷ (name ++ after_name names)

abbrev pub joined : List Str → Str
joined [] = []
joined (name ∷ names) = name ++ after_name names

until_comma-after_name :
    (name : Str) (names : List Str)
    → contains b',' name ≡ false
    → until_comma (name ++ after_name names) ≡ name
unfolding until_comma contains
until_comma-after_name [] [] h = refl
until_comma-after_name [] (x ∷ names) h = refl
until_comma-after_name (c ∷ name) names h = ground (arith, h, until_comma-after_name name names)

drop-length : (xs ys : Str) → drop (length xs) (xs ++ ys) ≡ ys
drop-length [] ys = refl
drop-length (x ∷ xs) ys = drop-length xs ys

skip_comma-after_name : (names : List Str) → skip_comma (after_name names) ≡ joined names
skip_comma-after_name [] = refl
skip_comma-after_name (name ∷ names) = refl

joined-after_name : (names : List Str) → length (joined names) ≤ length (after_name names)
joined-after_name [] = omega arith
joined-after_name (name ∷ names) = omega arith

-- What a round does with a piece of the list.
abbrev pick : ℕ → ℕ → Bool → Str → Str → List Str
pick fuel room is name rest = elim is as (λ x. List Str) [
  | true ↦ name ∷ parse_from fuel room rest
  | false ↦ parse_from fuel (suc room) rest
]

parse_from-joined :
    (fuel room : ℕ) (names : List Str)
    → AllGroups names
    → length names ≤ room
    → length (joined names) ≤ fuel
    → parse_from fuel room (joined names) ≡ names
unfolding parse_from
parse_from-joined zero room [] g h k = refl
parse_from-joined (suc fuel) room [] g h k = refl
parse_from-joined fuel room ([] ∷ names) (g, gs) h k = absurd (omega (arith, g.some_bytes))
parse_from-joined fuel zero ((c ∷ name) ∷ names) g h k = absurd (omega (arith, h))
parse_from-joined zero (suc room) ((c ∷ name) ∷ names) g h k = absurd (omega (arith, k))
parse_from-joined (suc fuel) (suc room) ((c ∷ name) ∷ names) (g, gs) h k =
    let whole : Str = joined ((c ∷ name) ∷ names) in
    let piece : until_comma whole ≡ c ∷ name = until_comma-after_name (c ∷ name) names g.no_comma in
    let rest : skip_comma (drop (length (c ∷ name)) whole) ≡ joined names =
      ap skip_comma (drop-length (c ∷ name) (after_name names)) ∙ skip_comma-after_name names in
    let kept : is_name (trim (c ∷ name)) ≡ true =
      ap is_name g.trimmed ∙ ground (arith, g.some_bytes, g.short) in
    let shorter : length (joined names) ≤ length (after_name names) = joined-after_name names in
    let size : length (name ++ after_name names) ≡ length name + length (after_name names) =
      length-append name (after_name names) in
    ap (λ p. pick fuel room (is_name (trim p)) (trim p) (skip_comma (drop (length p) whole))) piece
    ∙ ap (λ b. pick fuel room b (trim (c ∷ name)) (skip_comma (drop (length (c ∷ name)) whole)))
        kept
    ∙ ap₂ ◌∷◌ g.trimmed (
        ap (parse_from fuel room) rest
        ∙ parse_from-joined fuel room names gs (omega (arith, h)) (omega (arith, k, shorter, size)))

-- The children of the sequence, from the one at `i` on.
abbrev pub Children : Document → ℕ → List Str → Type 0
Children doc i [] = Unit
Children doc i (name ∷ names) = (doc.child groups_key i ≡ some name) × Children doc (i + 1) names

join_name-fits :
    (b : ℕ) (buf name : Str)
    → length buf + length name + 2 < 512
    → join_name (b ∷ buf) name ≡ some ((b ∷ buf ++ b',' ∷ []) ++ name)
unfolding join_name
join_name-fits b buf name h =
    let size : length (b ∷ buf ++ b',' ∷ []) ≡ length buf + 2 =
      length-append (b ∷ buf) (b',' ∷ []) ∙ omega arith in
    let one_more : (not (length (b ∷ buf) == 0) && leb 512 (length (b ∷ buf) + 1)) ≡ false =
      ground (arith, h) in
    let room : leb 512 (length (b ∷ buf ++ b',' ∷ []) + length name) ≡ false =
      ground (arith, h, size) in
    let filled : (length (b ∷ buf) == 0) ≡ false = ground arith in
    let tried : Str → Option Str = (λ sep.
      if leb 512 (length (b ∷ buf ++ sep) + length name)
      then none
      else some ((b ∷ buf ++ sep) ++ name)) in
    if_false none one_more ∙ ap tried (if_false [] filled) ∙ if_false none room

join_name-first : (name : Str) → length name < 512 → join_name [] name ≡ some name
unfolding join_name
join_name-first name h =
    let room : leb 512 (0 + length name) ≡ false = ground (arith, h) in if_false none room

-- The parts of a round of join_groups_sequence.
abbrev next_buf : Document → ℕ → ℕ → Option Str → Option Str
next_buf doc i n o = elim o as (λ x. Option Str) [
  | none ↦ none
  | some buf ↦ join_from doc buf (i + 1) n
]

abbrev next : Document → Str → ℕ → ℕ → Option Str → Option Str
next doc buf i n o = elim o as (λ x. Option Str) [
  | none ↦ join_from doc buf (i + 1) n
  | some [] ↦ join_from doc buf (i + 1) n
  | some (c ∷ s) ↦ next_buf doc i n (join_name buf (c ∷ s))
]

join_from-after_name :
    (doc : Document) (b : ℕ) (buf : Str) (i : ℕ) (names : List Str)
    → Children doc i names
    → AllGroups names
    → length ((b ∷ buf) ++ after_name names) < 512
    → join_from doc (b ∷ buf) i (length names) ≡ some ((b ∷ buf) ++ after_name names)
unfolding join_from
join_from-after_name doc b buf i [] children g h = ap some (sym (append-nil (b ∷ buf)))
join_from-after_name doc b buf i ([] ∷ names) children (g, gs) h =
    absurd (omega (arith, g.some_bytes))
join_from-after_name doc b buf i ((c ∷ name) ∷ names) (child, children) (g, gs) h =
    let n : ℕ = length names in
    let buf1 : Str = (b ∷ buf ++ b',' ∷ []) ++ c ∷ name in
    let size : length buf1 ≡ suc (length buf) + 1 + suc (length name) =
      length-append (b ∷ buf ++ b',' ∷ []) (c ∷ name)
      ∙ ap (λ k. k + suc (length name)) (length-append (b ∷ buf) (b',' ∷ [])) in
    let whole : buf1 ++ after_name names ≡ (b ∷ buf) ++ after_name ((c ∷ name) ∷ names) =
      append_assoc (b ∷ buf ++ b',' ∷ []) (c ∷ name) (after_name names)
      ∙ append_assoc (b ∷ buf) (b',' ∷ []) (c ∷ name ++ after_name names) in
    let fits : length (buf1 ++ after_name names) < 512 =
      subst (λ t. length t < 512) (sym whole) h in
    let small : length buf1 < 512 = omega (arith, length-append buf1 (after_name names), fits) in
    ap (λ o. next doc (b ∷ buf) i n o) child
    ∙ ap (λ o. next_buf doc i n o) (join_name-fits b buf (c ∷ name) (omega (arith, small, size)))
    ∙ join_from-after_name doc b (buf ++ b',' ∷ [] ++ c ∷ name) (i + 1) names children gs fits
    ∙ ap some whole

join_from-joined :
    (doc : Document) (names : List Str)
    → 1 ≤ length names
    → Children doc 0 names
    → AllGroups names
    → length (joined names) < 512
    → join_from doc [] 0 (length names) ≡ some (joined names)
unfolding join_from
join_from-joined doc [] h children g short = absurd (omega (arith, h))
join_from-joined doc ([] ∷ names) h children (g, gs) short = absurd (omega (arith, g.some_bytes))
join_from-joined doc ((c ∷ name) ∷ names) h (child, children) (g, gs) short =
    ap (λ o. next doc [] 0 (length names) o) child
    ∙ ap (λ o. next_buf doc 0 (length names) o)
        (join_name-first (c ∷ name) (omega (arith, g.short)))
    ∙ join_from-after_name doc c name 1 names children gs short

-- One to 16 group names, each of 1 to 63 bytes without commas and without blanks at its ends, and
-- below 512 bytes when joined, are joined from a document's sequence into one text that
-- parse_groups reads back as the same names.
pub join_groups-parse_groups :
    (doc : Document) (names : List Str)
    → AllGroups names
    → 1 ≤ length names
    → length names ≤ 16
    → Children doc 0 names
    → length (joined names) < 512
    → (join_from doc [] 0 (length names) ≡ some (joined names))
      × (parse_groups (joined names) 16 ≡ names)
join_groups-parse_groups doc names g some_names few children short = (
  join_from-joined doc names some_names children g short,
  parse_from-joined (length (joined names)) 16 names g few (omega arith),
)
