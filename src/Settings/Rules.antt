-- ===== src/Settings/Rules.antt =====
-- What each branch of apply_scalar needs in order to keep a property of the settings.
use pqproxy.Base.{ℕ, ◌≤◌, Bool, List, Option, none, some, ℤ, pos, negsuc, Str, codes, length}
use pqproxy.Base.Each.{AllOf}
use pqproxy.Settings.Ports.{IsPort, bundle_strdup-le, PortOk, hostport-PortOk, parse_u16-le}
use pqproxy.Scalars.{parse_u16, parse_int, parse_bool}
use pqproxy.Settings.{Settings, Bundle, bundle_strdup, owned_max, hostport, set_hostport}
use pqproxy.Settings.Rows.{Rows, append-Rows, first_match-Rows}
use pqproxy.Settings.Apply.{
  listen_rows, tls_rows, identity_rows, backend_rows, metrics_rows, loop_rows, apply_scalar,
}
use pqproxy.Settings.Setters.{
  Applied, refused, applied, with_cfg, set_text, set_flag, set_port, set_ms, set_address,
}

-- The settings keep `Q`, and the bundle its room.
module _ (Q : Settings → Type 0) where
  abbrev pub Sound : Bundle → Type 0
  Sound b = Q b.cfg × (length b.owned ≤ owned_max)

  abbrev pub SoundApplied : Applied → Type 0
  SoundApplied (refused msg) = Unit
  SoundApplied (applied b) = Sound b

  abbrev pub SoundRows : List (Bool × Applied) → Type 0
  SoundRows = Rows SoundApplied

  module _ (b : Bundle) (val : Str) where
    pub set_text-sound :
        (store : Option Str → Settings)
        → ((s : Option Str) → Q (store s))
        → SoundApplied (set_text b val store)
    unfolding set_text
    set_text-sound store keep = go (bundle_strdup b val) (bundle_strdup-le b val)
      where
        go :
            (o : Option Bundle)
            → AllOf (λ (b' : Bundle). length b'.owned ≤ owned_max) o
            → SoundApplied (elim o as (λ x. Applied) [
              | none ↦ refused (codes "oom")
              | some b' ↦ applied (with_cfg b' (store (some val)))
            ])
        go none h = tt
        go (some b') h = (keep (some val), h)

    pub set_flag-sound :
        (store : Bool → Settings)
        → ((v : Bool) → Q (store v))
        → length b.owned ≤ owned_max
        → SoundApplied (set_flag b val store)
    unfolding set_flag
    set_flag-sound store keep room = go (parse_bool val)
      where
        go :
            (o : Option Bool)
            → SoundApplied (elim o as (λ x. Applied) [
              | none ↦ refused (codes "invalid bool")
              | some v ↦ applied (with_cfg b (store v))
            ])
        go none = tt
        go (some v) = (keep v, room)

    pub set_port-sound :
        (store : ℕ → Settings)
        → ((n : ℕ) → n ≤ 65535 → Q (store n))
        → length b.owned ≤ owned_max
        → SoundApplied (set_port b val store)
    unfolding set_port
    set_port-sound store keep room = go (parse_u16 val) (parse_u16-le val)
      where
        go :
            (o : Option ℕ)
            → AllOf (λ n. n ≤ 65535) o
            → SoundApplied (elim o as (λ x. Applied) [
              | none ↦ refused (codes "invalid port")
              | some v ↦ applied (with_cfg b (store v))
            ])
        go none h = tt
        go (some n) h = (keep n h, room)

    pub set_ms-sound :
        (store : ℤ → Settings)
        → ((n : ℕ) → Q (store (pos n)))
        → length b.owned ≤ owned_max
        → SoundApplied (set_ms b val store)
    unfolding set_ms
    set_ms-sound store keep room = go (parse_int val)
      where
        go :
            (o : Option ℤ)
            → SoundApplied (elim o as (λ x. Applied) [
              | none ↦ refused (codes "invalid ms")
              | some (negsuc n) ↦ refused (codes "invalid ms")
              | some (pos n) ↦ applied (with_cfg b (store (pos n)))
            ])
        go none = tt
        go (some (negsuc n)) = tt
        go (some (pos n)) = (keep n, room)

    pub set_address-sound :
        (old : ℕ) (store : Option Str → ℕ → Settings)
        → ((s : Option Str) → Q (store s old))
        → ((s : Option Str) (n : ℕ) → IsPort n → Q (store s n))
        → SoundApplied (set_address b val old store)
    unfolding set_address set_hostport
    set_address-sound old store same new = go (hostport val) (hostport-PortOk val)
      where
        stored :
            (b' : Bundle) (host : Str) (o : Option ℕ)
            → AllOf IsPort o
            → length b'.owned ≤ owned_max
            → Sound
                (with_cfg b' (store (some host) (elim o as (λ x. ℕ) [ none ↦ old | some p ↦ p ])))
        stored b' host none h room = (same (some host), room)
        stored b' host (some p) h room = (new (some host) p h, room)

        copied :
            (host : Str) (port : Option ℕ)
            → AllOf IsPort port
            → (o : Option Bundle) → AllOf (λ (b' : Bundle). length b'.owned ≤ owned_max) o
            → SoundApplied
                (elim (elim o as (λ x. Option (Bundle × Str × ℕ)) [
                  | none ↦ none
                  | some b' ↦ some (b', host, elim port as (λ x. ℕ) [ none ↦ old | some p ↦ p ])
                ])
                  as (λ x. Applied) [
                    | none ↦ refused (codes "invalid HOST:PORT")
                    | some (b', host', p) ↦ applied (with_cfg b' (store (some host') p))
                  ])
        copied host port h none room = tt
        copied host port h (some b') room = stored b' host port h room

        go :
            (o : Option (Str × Option ℕ))
            → AllOf PortOk o
            → SoundApplied
                (elim (elim o as (λ x. Option (Bundle × Str × ℕ)) [
                  | none ↦ none
                  | some (host, port) ↦
                      elim (bundle_strdup b host) as (λ x. Option (Bundle × Str × ℕ)) [
                        | none ↦ none
                        | some b' ↦
                            some (b', host, elim port as (λ x. ℕ) [ none ↦ old | some p ↦ p ])
                      ]
                ])
                  as (λ x. Applied) [
                    | none ↦ refused (codes "invalid HOST:PORT")
                    | some (b', host', p) ↦ applied (with_cfg b' (store (some host') p))
                  ])
        go none h = tt
        go (some (host, port)) h =
            copied host port h (bundle_strdup b host) (bundle_strdup-le b host)

  pub apply_scalar-sound :
      (b : Bundle) (key val : Str)
      → Sound b
      → SoundRows (listen_rows b key val)
      → SoundRows (tls_rows b key val)
      → SoundRows (identity_rows b key val)
      → SoundRows (backend_rows b key val)
      → SoundRows (metrics_rows b key val)
      → SoundRows (loop_rows b key val)
      → SoundApplied (apply_scalar b key val)
  unfolding apply_scalar
  apply_scalar-sound b key val sound l t i p m o =
      first_match-Rows (applied b) _ sound
        (append-Rows (append-Rows (append-Rows (append-Rows (append-Rows l t) i) p) m) o)
