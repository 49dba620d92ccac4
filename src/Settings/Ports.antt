-- ===== src/Settings/Ports.antt =====
-- The ports that texts give, and the room of a bundle.
use pqproxy.Base.{
  ℕ, ◌≤◌, ◌<◌, ◌≡◌, false, ◌||◌, [], ◌∷◌, Option, none, some, ℤ, pos, negsuc, Str, ltb, leb, ◌==◌,
  if◌then◌else◌, if_cases, length, length-append, arith,
}
use pqproxy.Base.Atoi.{atoi, low32}
use pqproxy.Scalars.{parse_u16, u16_of, no_number}
use pqproxy.Base.Atoi.{strtol}
use pqproxy.Settings.{Bundle, bundle_strdup, owned_max, port_of, hostport, split_last}
use pqproxy.Base.Each.{AllOf}

-- A port that a host and port text may give.
abbrev pub IsPort : ℕ → Type 0
IsPort n = (0 < n) × (n ≤ 65535)

pub bundle_strdup-le :
    (b : Bundle) (s : Str)
    → AllOf (λ (b' : Bundle). length b'.owned ≤ owned_max) (bundle_strdup b s)
unfolding bundle_strdup
bundle_strdup-le b s =
    if_cases (AllOf λ (b' : Bundle). length b'.owned ≤ owned_max) (leb owned_max (length b.owned))
      (λ e. tt) (λ e. ground (arith, e, length-append b.owned (s ∷ [])))

pub port_of-IsPort : (s : Str) → AllOf IsPort (port_of s)
unfolding port_of
port_of-IsPort s =
    let port = low32 (atoi s) in
    if_cases (AllOf IsPort) (port == 0 || ltb 65535 port) (λ e. tt) (λ e. fits port e)
  where
    fits : (n : ℕ) → (n == 0 || ltb 65535 n) ≡ false → (0 < n) × (n ≤ 65535)
    fits n e = ground arith

-- The port of a text, if one is written.
abbrev pub PortOk : Str × Option ℕ → Type 0
PortOk r = AllOf IsPort r.1

pub hostport-PortOk : (s : Str) → AllOf PortOk (hostport s)
unfolding hostport
hostport-PortOk s = go (split_last b':' s)
  where
    ported :
        (host : Str) (o : Option ℕ)
        → AllOf IsPort o
        → AllOf PortOk (elim o as (λ x. Option (Str × Option ℕ)) [
          | none ↦ none
          | some port ↦ some (host, some port)
        ])
    ported host none h = tt
    ported host (some p) h = h

    go :
        (o : Option (Str × Str))
        → AllOf PortOk (elim o as (λ x. Option (Str × Option ℕ)) [
          | none ↦ some (s, none)
          | some ([], after) ↦ some (s, none)
          | some (b ∷ host, after) ↦
              if leb 256 (length (b ∷ host))
              then none
              else elim (port_of after) [ none ↦ none | some port ↦ some (b ∷ host, some port) ]
        ])
    go none = tt
    go (some ([], after)) = tt
    go (some (b ∷ host, after)) =
        if_cases (AllOf PortOk) (leb 256 (length (b ∷ host))) (λ e. tt)
          (λ e. ported (b ∷ host) (port_of after) (port_of-IsPort after))

u16_of-le : (v : ℤ) → AllOf (λ n. n ≤ 65535) (u16_of v)
unfolding u16_of
u16_of-le (pos n) = if_cases (AllOf λ n. n ≤ 65535) (ltb 65535 n) (λ e. tt) (λ e. ground (arith, e))
u16_of-le (negsuc n) = tt

pub parse_u16-le : (s : Str) → AllOf (λ n. n ≤ 65535) (parse_u16 s)
unfolding parse_u16
parse_u16-le s =
    if_cases (AllOf λ n. n ≤ 65535) (no_number s (strtol s).1) (λ e. tt)
      (λ e. u16_of-le (strtol s).0)
