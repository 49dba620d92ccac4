-- ===== src/Scram/Users.antt =====
-- The name of the user: copy_user writes it so that it can be read back, and without a comma.
use pqproxy.Base.{
  ℕ, ◌+◌, ◌-◌, ◌*◌, ◌≤◌, ◌<◌, ◌≡◌, refl, sym, ap, subst, ◌∙◌, Bool, true, false, [], ◌∷◌, ◌++◌,
  Option, none, some, Str, leb, ◌==◌, if_cases, ==_iff, length, length-append, arith,
}
use mathlib.Core.List.{append_assoc, append-nil}
use pqproxy.Base.Members.{contains}
use pqproxy.Base.Each.{AllOf}
use pqproxy.Scram.{escape, no_copy, copy_from, copy_user}

-- Where a reader of a user name stands: in the text, after `=`, and after `=` and a digit.
pub data Place : Type 0 where
  in_text after_equals : Place
  after_digit : ℕ → Place

abbrev hex_byte : ℕ → ℕ → ℕ
hex_byte h l = (h - b'0') * 16 + (l - (b'A' - 10))

-- The name that was escaped, as RFC 5802 reads it: `=` and two hexadecimal digits are one byte.
unfoldable pub unescape : Place → Str → Str
unescape p [] = []
unescape in_text (c ∷ s) = elim (c == b'=') [
  | true ↦ unescape after_equals s
  | false ↦ c ∷ unescape in_text s
]
unescape after_equals (c ∷ s) = unescape (after_digit c) s
unescape (after_digit h) (c ∷ s) = hex_byte h c ∷ unescape in_text s

unescape-escape : (c : ℕ) (s : Str) → unescape in_text (escape c ++ s) ≡ c ∷ unescape in_text s
unfolding unescape
unescape-escape c s =
    if_cases (λ t. unescape in_text (t ++ s) ≡ c ∷ unescape in_text s) (c == b'=')
      (λ e. ap (λ x. x ∷ unescape in_text s) (sym ((==_iff c b'=').0 e)))
      λ e.
        if_cases (λ t. unescape in_text (t ++ s) ≡ c ∷ unescape in_text s) (c == b',')
          (λ k. ap (λ x. x ∷ unescape in_text s) (sym ((==_iff c b',').0 k)))
          λ k.
            ap
              (λ (x : Bool). elim x as (λ y. Str) [
                | true ↦ unescape after_equals s
                | false ↦ c ∷ unescape in_text s
              ])
              e

-- What copying writes after `dst`: an escaped part of the name, all of it if there is room left.
abbrev Copied : ℕ → Str → Str → Str → Type 0
Copied dstsz dst s d =
    (more : Str) × (rest : Str) × (d ≡ dst ++ more)
    × (unescape in_text more ++ rest ≡ s)
    × (length d + 1 < dstsz → rest ≡ [])

copy_from-Copied : (dstsz : ℕ) (dst s : Str) → AllOf (Copied dstsz dst s) (copy_from dstsz dst s)
unfolding copy_from unescape
copy_from-Copied dstsz dst [] = ([], [], sym (append-nil dst), refl, λ h. refl)
copy_from-Copied dstsz dst (c ∷ s) =
    go (leb dstsz (length dst + 1)) (no_copy dstsz (length dst) c) refl
      (copy_from dstsz (dst ++ escape c) s) (copy_from-Copied dstsz (dst ++ escape c) s)
  where
    further : (d : Str) → Copied dstsz (dst ++ escape c) s d → Copied dstsz dst (c ∷ s) d
    further d (more, rest, e, copied, full) = (
      escape c ++ more,
      rest,
      e ∙ append_assoc dst (escape c) more,
      ap (λ t. t ++ rest) (unescape-escape c more) ∙ ap (◌∷◌ c) copied,
      full,
    )

    go :
        (full refuses : Bool)
        → leb dstsz (length dst + 1) ≡ full
        → (o : Option Str) → AllOf (Copied dstsz (dst ++ escape c) s) o
        → AllOf (Copied dstsz dst (c ∷ s)) (elim full as (λ x. Option Str) [
          | true ↦ some dst
          | false ↦ elim refuses as (λ x. Option Str) [ true ↦ none | false ↦ o ]
        ])
    go true refuses e o h =
        ([], c ∷ s, sym (append-nil dst), refl, λ k. absurd (ground (arith, e, k)))
    go false true e o h = tt
    go false false e none h = tt
    go false false e (some d) h = further d h

-- A user name that copy_user accepts is, read back as RFC 5802 says, the start of the name given,
-- and all of it if fewer than 127 bytes were written.
pub copy_user-unescape :
    (user d : Str)
    → copy_user 128 user ≡ some d
    → (rest : Str) × (unescape in_text d ++ rest ≡ user) × (length d < 127 → rest ≡ [])
unfolding copy_user
copy_user-unescape [] d e = cc
copy_user-unescape (c ∷ user) d e =
    let (more, rest, same, copied, full) =
      subst (AllOf (Copied 128 [] (c ∷ user))) e (copy_from-Copied 128 [] (c ∷ user)) in
    (rest, ap (λ t. unescape in_text t ++ rest) same ∙ copied, λ h. full (omega arith))

contains-append-none :
    (x : ℕ) (a b : Str) → contains x a ≡ false → contains x b ≡ false → contains x (a ++ b) ≡ false
unfolding contains
contains-append-none x [] b h k = k
contains-append-none x (y ∷ a) b h k = ground (arith, h, contains-append-none x a b)

escape-contains : (c : ℕ) → contains b',' (escape c) ≡ false
unfolding contains
escape-contains c = ground arith

-- Within the room, and without a comma.
abbrev OneField : ℕ → Str → Type 0
OneField dstsz d = (contains b',' d ≡ false) × (length d < dstsz)

copy_from-OneField :
    (dstsz : ℕ) (dst s : Str) → OneField dstsz dst → AllOf (OneField dstsz) (copy_from dstsz dst s)
unfolding copy_from
copy_from-OneField dstsz dst [] h = h
copy_from-OneField dstsz dst (c ∷ s) (no_comma, room) =
    go (leb dstsz (length dst + 1)) (no_copy dstsz (length dst) c) refl refl
      (copy_from dstsz (dst ++ escape c) s)
      λ fits.
        copy_from-OneField dstsz (dst ++ escape c) s
          (contains-append-none b',' dst (escape c) no_comma (escape-contains c), fits)
  where
    go :
        (full refuses : Bool)
        → leb dstsz (length dst + 1) ≡ full
        → no_copy dstsz (length dst) c ≡ refuses
        → (o : Option Str) → (length (dst ++ escape c) < dstsz → AllOf (OneField dstsz) o)
        → AllOf (OneField dstsz) (elim full as (λ x. Option Str) [
          | true ↦ some dst
          | false ↦ elim refuses as (λ x. Option Str) [ true ↦ none | false ↦ o ]
        ])
    go true refuses e k o h = (no_comma, room)
    go false true e k o h = tt
    go false false e k o h = h (ground (arith, e, k, length-append dst (escape c)))

-- A user name that copy_user writes has no comma and at most 127 bytes, so it is one field of the
-- message.
pub copy_user-OneField :
    (user d : Str) → copy_user 128 user ≡ some d → (contains b',' d ≡ false) × (length d ≤ 127)
unfolding copy_user contains
copy_user-OneField [] d e = cc
copy_user-OneField (c ∷ user) d e =
    let (no_comma, room) =
      subst (AllOf (OneField 128)) e (copy_from-OneField 128 [] (c ∷ user) (refl, omega arith)) in
    (no_comma, omega (arith, room))
