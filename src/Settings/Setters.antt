-- ===== src/Settings/Setters.antt =====
-- src/config_yaml.c, apply_scalar: how a value is checked and stored.
use pqproxy.Base.{ℕ, Bool, not, Option, none, some, ℤ, pos, negsuc, Str, codes, str_eq, ltb, ◌==◌}
use pqproxy.Settings.{Settings, Bundle, bundle_strdup, set_hostport}
use pqproxy.Scalars.{parse_bool, parse_u16, parse_int}

-- -1 with the message, or 0 with the bundle.
pub data Applied : Type 0 where
  refused : Str → Applied
  applied : Bundle → Applied

abbrev pub is : Str → Str → Bool
is key name = str_eq key name

abbrev pub with_cfg : Bundle → Settings → Bundle
with_cfg b cfg = record b { cfg = cfg }

-- A text is copied, and its copy stored.
unfoldable pub set_text : Bundle → Str → (Option Str → Settings) → Applied
set_text b val store = elim (bundle_strdup b val) [
  | none ↦ refused (codes "oom")
  | some b' ↦ applied (with_cfg b' (store (some val)))
]

unfoldable pub set_flag : Bundle → Str → (Bool → Settings) → Applied
set_flag b val store = elim (parse_bool val) [
  | none ↦ refused (codes "invalid bool")
  | some v ↦ applied (with_cfg b (store v))
]

unfoldable pub set_port : Bundle → Str → (ℕ → Settings) → Applied
set_port b val store = elim (parse_u16 val) [
  | none ↦ refused (codes "invalid port")
  | some v ↦ applied (with_cfg b (store v))
]

-- A number of milliseconds.
unfoldable pub set_ms : Bundle → Str → (ℤ → Settings) → Applied
set_ms b val store = elim (parse_int val) [
  | none ↦ refused (codes "invalid ms")
  | some (negsuc n) ↦ refused (codes "invalid ms")
  | some (pos n) ↦ applied (with_cfg b (store (pos n)))
]

unfoldable pub set_address : Bundle → Str → ℕ → (Option Str → ℕ → Settings) → Applied
set_address b val old_port store = elim (set_hostport b val old_port) [
  | none ↦ refused (codes "invalid HOST:PORT")
  | some (b', host, port) ↦ applied (with_cfg b' (store (some host) port))
]

-- `iv < -1 || iv > 32767`
unfoldable pub is_slot : ℤ → Bool
is_slot (pos n) = not (ltb 32_767 n)
is_slot (negsuc n) = n == 0
