-- ===== src/Settings/InRange.antt =====
-- What a configuration file leaves in range and guarded, as a whole.
use pqproxy.Base.{
  ◌≤◌, ◌≡◌, refl, Bool, true, false, ◌||◌, Option, none, some, Str, codes, str_eq→eq, length, subst,
}
use pqproxy.Settings.{Bundle, owned_max}
use pqproxy.Settings.Setters.{applied, is}
use pqproxy.Settings.Load.{Document, lookup, Fed, known, load_yaml}
use pqproxy.Settings.Loading.{load_yaml-sound}
use pqproxy.Settings.Rules.{SoundApplied}
use pqproxy.Settings.Guard.{InRange, Guarded, defaults-Guarded, apply_scalar-Guarded}

-- No document sets one of the keys that turn TLS off or stop asking for certificates.
abbrev pub NeverPlain : (Str → Fed) → Type 0
NeverPlain yaml =
    (s : Str) (doc : Document)
    → yaml s ≡ known doc
    → (lookup doc (codes "tls.plain") ≡ none)
      × (lookup doc (codes "plain") ≡ none)
      × (lookup doc (codes "tls.require_mtls") ≡ none)
      × (lookup doc (codes "require_mtls") ≡ none)

unset :
    (doc : Document) (key val name : Str)
    → lookup doc key ≡ some val
    → lookup doc name ≡ none
    → ¬ (is key name ≡ true)
unset doc key val name found missing e = let k = str_eq→eq key name e in cc

either : {a b : Bool} → ¬ (a ≡ true) → ¬ (b ≡ true) → ¬ ((a || b) ≡ true)
either {a = true} f g e = f refl
either {a = false} f g e = g e

pub load_yaml-Guarded :
    (files : Str → Option Str) (yaml : Str → Fed) (path : Str)
    → SoundApplied (Guarded (NeverPlain yaml)) (load_yaml files yaml path)
load_yaml-Guarded files yaml path =
    load_yaml-sound (Guarded (NeverPlain yaml)) (λ c s r. r) yaml
      (defaults-Guarded (NeverPlain yaml))
      (λ doc s h b key val found (r, room).
        apply_scalar-Guarded (NeverPlain yaml) b key val
          (λ never.
            let (p, q, u, v) = never s doc h in
            either (unset doc key val _ found p) (unset doc key val _ found q))
          (λ never.
            let (p, q, u, v) = never s doc h in
            either (unset doc key val _ found u) (unset doc key val _ found v))
          r room)
      files path

-- Whatever a file says, if it loads, the ports fit 16 bits, the listener's port is not 0, the slot
-- is -1 to 32767, the intervals are not negative, and the bundle owns at most 32 texts.
pub load_yaml-InRange :
    (files : Str → Option Str) (yaml : Str → Fed) (path : Str) (b : Bundle)
    → load_yaml files yaml path ≡ applied b
    → InRange b.cfg × (length b.owned ≤ owned_max)
load_yaml-InRange files yaml path b e =
    let ((r, m), room) =
      subst (SoundApplied (Guarded (NeverPlain yaml))) e (load_yaml-Guarded files yaml path) in
    (r, room)
