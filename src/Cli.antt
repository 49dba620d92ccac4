-- ===== src/Cli.antt =====
-- src/main.c: the command line. usage and the messages on stderr are left out.
pub mod Kept
pub mod Served
use pqproxy.Base.{
  ℕ, ◌+◌, ◌-◌, ◌^◌, Bool, true, false, ◌&&◌, ◌||◌, not, List, [], ◌∷◌, ◌++◌, Option, none, some, ℤ,
  pos, negsuc, Str, codes, ltb, leb, ◌==◌, if◌then◌else◌, length, low16, to_int16,
}
use pqproxy.Base.Atoi.{atoi, is_digit}
use pqproxy.Settings.{Settings, Bundle, bundle_init, owned_max, split_last, port_of}
use pqproxy.Settings.Rows.{first_match}
use pqproxy.Settings.Setters.{Applied, refused, applied, is, with_cfg}
use pqproxy.Settings.Load.{Fed, load_yaml}

-- An exit code, or the bundle to go on with.
pub data Parsed : Type 0 where
  exits : ℕ → Parsed
  goes_on : Bundle → Parsed

-- strdup of the host, which the bundle owns if it has room.
abbrev pub own : Bundle → Str → Bundle
own b s = if ltb (length b.owned) owned_max then record b { owned = b.owned ++ s ∷ [] } else b

-- parse_listen: the host and the port, none for -1.
unfoldable pub parse_listen : Str → Bundle → Option Bundle
parse_listen s b = elim (split_last b':' s) [
  | none ↦ none
  | some ([], after) ↦ none
  | some (c ∷ host, after) ↦ if leb 256 (length (c ∷ host)) then none else elim (port_of after) [
    | none ↦ none
    | some port ↦ some (
        with_cfg (own b (c ∷ host))
          (record b.cfg { listen_host = some (c ∷ host); listen_port = port }))
  ]
]

-- The options that stand alone.
unfoldable pub flag_rows : Str → Settings → List (Bool × Option Settings)
flag_rows arg c =
    (is arg (codes "--plain"), some (record c { plain = true; require_mtls = false }))
    ∷ (is arg (codes "--no-mtls"), some (record c { require_mtls = false }))
    ∷ (is arg (codes "--quiet"), some (record c { quiet = true }))
    ∷ (is arg (codes "--fair"), some (record c { fair_schedule = true }))
    ∷ (is arg (codes "--no-fair"), some (record c { fair_schedule = false }))
    ∷ (is arg (codes "--reject-simple-query"), some (record c { reject_simple_query = true }))
    ∷ (is arg (codes "--allow-simple-query"), some (record c { reject_simple_query = false }))
    ∷ (is arg (codes "--log-json"), some (record c { log_json = true }))
    ∷ (is arg (codes "--msg-zerocopy"), some (record c { msg_zerocopy = true }))
    ∷ (is arg (codes "--backend-group-login"), some (record c { backend_use_group_as_user = true }))
    ∷ (is arg (codes "--no-lazy-group"), some (record c { backend_lazy_group = false }))
    ∷ (is arg (codes "--ktls-prefer"), some (record c { prefer_tls12_ktls = true }))
    ∷ (is arg (codes "--no-ktls-prefer"), some (record c { prefer_tls12_ktls = false }))
    ∷ (is arg (codes "--no-metrics-http"), some (record c { metrics_http_port = 0 }))
    ∷ []

-- `(size_t) v`
abbrev pub to_size : ℤ → ℕ
to_size (pos n) = n
to_size (negsuc n) = 2 ^ 64 - 1 - n

-- The value of --backend.
unfoldable pub set_backend : Str → Settings → Settings
set_backend s c = elim (split_last b':' s) [
  | none ↦ record c { backend_host = some s; backend_port = 5432 }
  | some (host, after) ↦ record c { backend_host = some host; backend_port = low16 (atoi after) }
]

-- The value of --metrics-http-port, none for exit code 2.
unfoldable pub set_metrics_port : ℤ → Settings → Option Settings
set_metrics_port (pos n) c = if ltb 65535 n then none else some (record c { metrics_http_port = n })
set_metrics_port (negsuc n) c = none

abbrev pub first_is_digit : Str → Bool
first_is_digit [] = false
first_is_digit (c ∷ s) = is_digit c

-- A port alone, or a host.
unfoldable pub set_metrics_text : Str → ℤ → Settings → Settings
set_metrics_text s (negsuc n) c = record c { metrics_http_host = some s }
set_metrics_text s (pos n) c =
    if ltb 0 n && leb n 65535 && first_is_digit s
    then record c { metrics_http_port = n }
    else record c { metrics_http_host = some s }

-- The value of --metrics-http.
unfoldable pub set_metrics : Str → Settings → Settings
unfolding set_metrics_text
set_metrics s c = elim (split_last b':' s) [
  | none ↦ set_metrics_text s (atoi s) c
  | some ([], after) ↦ set_metrics_text s (atoi s) c
  | some (a ∷ host, after) ↦ record c {
    metrics_http_host = some (a ∷ host);
    metrics_http_port = low16 (atoi after);
  }
]

abbrev pub or_exit_2 : Option Bundle → Parsed
or_exit_2 none = exits 2
or_exit_2 (some b) = goes_on b

-- The options with a value.
unfoldable pub value_rows : Str → Str → Bundle → List (Bool × Parsed)
unfolding parse_listen set_backend set_metrics_port set_metrics
value_rows arg v b =
    let c = b.cfg in
    let put : Settings → Parsed = (λ c'. goes_on (with_cfg b c')) in
    (is arg (codes "--config"), goes_on b)
    ∷ (is arg (codes "--listen"), or_exit_2 (parse_listen v b))
    ∷ (is arg (codes "--cert"), put (record c { cert_file = some v }))
    ∷ (is arg (codes "--key"), put (record c { key_file = some v }))
    ∷ (is arg (codes "--ca"), put (record c { ca_file = some v }))
    ∷ (is arg (codes "--identity-slot"), put (record c { identity_slot = to_int16 (atoi v) }))
    ∷ (is arg (codes "--identity-param"), put (record c { identity_param_name = some v }))
    ∷ (is arg (codes "--backend"), put (set_backend v c))
    ∷ (is arg (codes "--backend-user"), put (record c { backend_user = some v }))
    ∷ (is arg (codes "--backend-password"), put (record c { backend_password = some v }))
    ∷ (is arg (codes "--backend-database"), put (record c { backend_database = some v }))
    ∷ (is arg (codes "--backend-pool"), put (record c { backend_pool_size = to_size (atoi v) }))
    ∷ (is arg (codes "--backend-groups"), put (record c { backend_groups = some v }))
    ∷ (is arg (codes "--maintain-ms"), put (record c { maintain_interval_ms = atoi v }))
    ∷ (is arg (codes "--metrics-ms"), put (record c { metrics_log_interval_ms = atoi v }))
    ∷ (
      is arg (codes "--metrics-http-port"),
      elim (set_metrics_port (atoi v) c) [ none ↦ exits 2 | some c' ↦ put c' ],
    )
    ∷ (is arg (codes "--metrics-http"), put (set_metrics v c))
    ∷ []

abbrev pub asks_help : Str → Bool
asks_help arg = is arg (codes "-h") || is arg (codes "--help")

-- The loop over the arguments.
unfoldable pub parse_args : Bundle → List Str → Parsed
unfolding flag_rows value_rows
parse_args b [] = goes_on b
parse_args b (arg ∷ []) = elim (asks_help arg) [
  | true ↦ exits 0
  | false ↦ elim (first_match none (flag_rows arg b.cfg)) [
    | some c ↦ goes_on (with_cfg b c)
    | none ↦ exits 2
  ]
]
parse_args b (arg ∷ v ∷ args) = elim (asks_help arg) [
  | true ↦ exits 0
  | false ↦ elim (first_match none (flag_rows arg b.cfg)) [
    | some c ↦ parse_args (with_cfg b c) (v ∷ args)
    | none ↦ elim (first_match (exits 2) (value_rows arg v b)) [
      | exits code ↦ exits code
      | goes_on b' ↦ parse_args b' args
    ]
  ]
]

-- The first pass: the value of the last --config.
unfoldable pub find_config : Option Str → List Str → Option Str
find_config path [] = path
find_config path (arg ∷ []) = path
find_config path (arg ∷ v ∷ args) = elim (is arg (codes "--config")) [
  | true ↦ find_config (some v) args
  | false ↦ find_config path (v ∷ args)
]

abbrev pub is_given : Option Str → Bool
is_given none = false
is_given (some s) = true

-- The checks before pqproxy_run.
unfoldable pub check_tls : Bundle → Parsed
check_tls b =
    let c = b.cfg in
    if not c.plain && (not (is_given c.cert_file) || not (is_given c.key_file))
    then exits 2
    else if not c.plain && c.require_mtls && not (is_given c.ca_file)
    then exits 2
    else goes_on b

abbrev pub and_then : Parsed → (Bundle → Parsed) → Parsed
and_then (exits code) f = exits code
and_then (goes_on b) f = f b

-- The bundle that the file of --config gives.
unfoldable pub load_config : (Str → Option Str) → (Str → Fed) → Option Str → Parsed
load_config files yaml none = goes_on bundle_init
load_config files yaml (some path) = elim (load_yaml files yaml path) [
  | refused msg ↦ exits 2
  | applied b ↦ goes_on b
]

-- main, up to the call of pqproxy_run: the exit code, or the bundle whose settings it runs.
unfoldable pub main : (Str → Option Str) → (Str → Fed) → List Str → Parsed
unfolding find_config load_config parse_args check_tls
main files yaml args =
    and_then (load_config files yaml (find_config none args))
      λ b. and_then (parse_args b args) check_tls
