-- ===== src/Settings.antt =====
-- src/config_yaml.c and include/pqproxy.h: the settings, their defaults, and texts such as HOST:PORT.
-- Flags are only ever set to 0 and 1. Allocations succeed; a bundle's room for texts is limited.
pub mod Rows
pub mod Setters
pub mod Apply
pub mod Load
pub mod Ports
pub mod Rules
pub mod Loading
pub mod Guard
pub mod InRange
use pqproxy.Base.{
  ℕ, Bool, true, false, ◌||◌, List, [], ◌∷◌, ◌++◌, Option, none, some, ℤ, pos, Str, codes, ltb, leb,
  ◌==◌, if◌then◌else◌, length,
}
use pqproxy.Base.Atoi.{atoi, low32}

-- pqproxy_config_t
pub record Settings : Type 0 where
  pub listen_host : Option Str
  pub listen_port : ℕ
  pub cert_file : Option Str
  pub key_file : Option Str
  pub ca_file : Option Str
  pub plain : Bool
  pub require_mtls : Bool
  pub identity_slot : ℤ
  pub identity_param_name : Option Str
  pub quiet : Bool
  pub msg_zerocopy : Bool
  pub backend_host : Option Str
  pub backend_port : ℕ
  pub backend_user : Option Str
  pub backend_password : Option Str
  pub backend_database : Option Str
  pub backend_use_group_as_user : Bool
  pub backend_groups : Option Str
  pub backend_lazy_group : Bool
  pub backend_pool_size : ℕ
  pub prefer_tls12_ktls : Bool
  pub maintain_interval_ms : ℤ
  pub metrics_log_interval_ms : ℤ
  pub metrics_http_host : Option Str
  pub metrics_http_port : ℕ
  pub fair_schedule : Bool
  pub reject_simple_query : Bool
  pub log_json : Bool

-- pqproxy_config_defaults
unfoldable pub defaults : Settings
defaults = record {
  listen_host = some (codes "0.0.0.0");
  listen_port = 6432;
  cert_file = none;
  key_file = none;
  ca_file = none;
  plain = false;
  require_mtls = true;
  identity_slot = pos 0;
  identity_param_name = none;
  quiet = false;
  msg_zerocopy = false;
  backend_host = none;
  backend_port = 5432;
  backend_user = none;
  backend_password = none;
  backend_database = none;
  backend_use_group_as_user = false;
  backend_groups = none;
  backend_lazy_group = true;
  backend_pool_size = 4;
  prefer_tls12_ktls = true;
  maintain_interval_ms = pos 5000;
  metrics_log_interval_ms = pos 30_000;
  metrics_http_host = some (codes "127.0.0.1");
  metrics_http_port = 9108;
  fair_schedule = true;
  reject_simple_query = true;
  log_json = false;
}

-- pqproxy_config_bundle_t: the settings, and the texts that the bundle owns.
pub record Bundle : Type 0 where
  pub cfg : Settings
  pub owned : List Str

abbrev pub owned_max : ℕ
owned_max = 32

unfoldable pub bundle_init : Bundle
bundle_init = record { cfg = defaults; owned = [] }

-- The bundle that owns the copy as well, if there is room.
unfoldable pub bundle_strdup : Bundle → Str → Option Bundle
bundle_strdup b s =
    if leb owned_max (length b.owned) then none else some (record b { owned = b.owned ++ s ∷ [] })

-- `strrchr`: the text before the last such byte, and the text after it.
unfoldable pub split_last : ℕ → Str → Option (Str × Str)
split_last c [] = none
split_last c (b ∷ s) = elim (split_last c s) [
  | some (before, after) ↦ some (b ∷ before, after)
  | none ↦ if b == c then some ([], s) else none
]

-- `port = (unsigned)atoi (text)`, none for 0 and for more than 65535.
unfoldable pub port_of : Str → Option ℕ
port_of text =
    let port = low32 (atoi text) in if port == 0 || ltb 65535 port then none else some port

-- The host and the port, if one is written; a host of 256 bytes or more is refused.
unfoldable pub hostport : Str → Option (Str × Option ℕ)
unfolding port_of
hostport s = elim (split_last b':' s) [
  | none ↦ some (s, none)
  | some ([], after) ↦ some (s, none)
  | some (b ∷ host, after) ↦
      if leb 256 (length (b ∷ host))
      then none
      else elim (port_of after) [ none ↦ none | some port ↦ some (b ∷ host, some port) ]
]

-- What set_hostport stores: the bundle, the host, and the port or the one of before.
unfoldable pub set_hostport : Bundle → Str → ℕ → Option (Bundle × Str × ℕ)
unfolding hostport
set_hostport b s old_port = elim (hostport s) [
  | none ↦ none
  | some (host, port) ↦ elim (bundle_strdup b host) [
    | none ↦ none
    | some b' ↦ some (b', host, elim port [ none ↦ old_port | some p ↦ p ])
  ]
]
