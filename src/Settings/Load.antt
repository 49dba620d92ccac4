-- ===== src/Settings/Load.antt =====
-- src/config_yaml.c, a YAML document as a whole. libyaml is a parameter.
use pqproxy.Base.{
  ℕ, zero, suc, ◌+◌, ◌&&◌, not, List, [], ◌∷◌, ◌++◌, Option, none, some, Str, codes, leb, ◌==◌,
  if◌then◌else◌, length,
}
use pqproxy.Settings.{Bundle, bundle_init, bundle_strdup}
use pqproxy.Settings.Apply.{apply_scalar}
use pqproxy.Settings.Setters.{Applied, refused, applied, with_cfg}

-- What libyaml says of a document: the message of its first error event, the scalar at a path, and
-- the number of the children of a path and the scalar of each.
pub record Document : Type 0 where
  pub error : Option Str
  pub scalar : Str → Option Str
  pub child_count : Str → ℕ
  pub child : Str → ℕ → Option Str

-- `lookup`: no value, or an empty one, is none.
unfoldable pub lookup : Document → Str → Option Str
lookup doc path = elim (doc.scalar path) [
  | none ↦ none
  | some [] ↦ none
  | some (c ∷ s) ↦ some (c ∷ s)
]

abbrev pub groups_key : Str
groups_key = codes "backend.groups"

-- A further name in the buffer of 512 bytes, none if it does not fit.
unfoldable pub join_name : Str → Str → Option Str
join_name buf val =
    let sep = if length buf == 0 then [] else b',' ∷ [] in
    if not (length buf == 0) && leb 512 (length buf + 1)
    then none
    else if leb 512 (length (buf ++ sep) + length val)
    then none
    else some (buf ++ sep ++ val)

-- The loop of join_groups_sequence, from the child `i` on, for `n` rounds.
unfoldable pub join_from : Document → Str → ℕ → ℕ → Option Str
unfolding join_name
join_from doc buf i zero = some buf
join_from doc buf i (suc n) = elim (doc.child groups_key i) [
  | none ↦ join_from doc buf (i + 1) n
  | some [] ↦ join_from doc buf (i + 1) n
  | some (c ∷ s) ↦ elim (join_name buf (c ∷ s)) [
    | none ↦ none
    | some buf' ↦ join_from doc buf' (i + 1) n
  ]
]

-- join_groups_sequence, none for -1.
unfoldable pub join_groups_sequence : Document → Bundle → Option Bundle
unfolding join_from
join_groups_sequence doc b = elim (join_from doc [] 0 (doc.child_count groups_key)) [
  | none ↦ none
  | some [] ↦ some b
  | some (c ∷ buf) ↦ elim (bundle_strdup b (c ∷ buf)) [
    | none ↦ none
    | some b' ↦ some (with_cfg b' (record b.cfg { backend_groups = some (c ∷ buf) }))
  ]
]

abbrev pub g_paths : List Str
g_paths =
    codes "listen"
    ∷ codes "listen.host"
    ∷ codes "listen.port"
    ∷ codes "listen_host"
    ∷ codes "listen_port"
    ∷ codes "tls.plain"
    ∷ codes "tls.require_mtls"
    ∷ codes "tls.cert"
    ∷ codes "tls.key"
    ∷ codes "tls.ca"
    ∷ codes "tls.ktls_prefer"
    ∷ codes "plain"
    ∷ codes "require_mtls"
    ∷ codes "cert"
    ∷ codes "key"
    ∷ codes "ca"
    ∷ codes "ktls_prefer"
    ∷ codes "identity.slot"
    ∷ codes "identity.param"
    ∷ codes "identity.param_name"
    ∷ codes "identity_slot"
    ∷ codes "identity_param"
    ∷ codes "msg_zerocopy"
    ∷ codes "zerocopy"
    ∷ codes "backend"
    ∷ codes "backend.host"
    ∷ codes "backend.port"
    ∷ codes "backend.user"
    ∷ codes "backend.password"
    ∷ codes "backend.database"
    ∷ codes "backend.pool_size"
    ∷ codes "backend.group_login"
    ∷ codes "backend.groups"
    ∷ codes "backend.lazy_group"
    ∷ codes "backend_host"
    ∷ codes "backend_port"
    ∷ codes "backend_user"
    ∷ codes "backend_password"
    ∷ codes "backend_database"
    ∷ codes "backend_pool"
    ∷ codes "backend_group_login"
    ∷ codes "backend_groups"
    ∷ codes "lazy_group"
    ∷ codes "metrics.log_ms"
    ∷ codes "metrics.http_host"
    ∷ codes "metrics.http_port"
    ∷ codes "metrics.http"
    ∷ codes "metrics_ms"
    ∷ codes "metrics_http"
    ∷ codes "maintain_ms"
    ∷ codes "quiet"
    ∷ codes "fair_schedule"
    ∷ codes "fair"
    ∷ codes "reject_simple_query"
    ∷ codes "extended_only"
    ∷ codes "allow_simple_query"
    ∷ codes "log_json"
    ∷ codes "structured_log"
    ∷ []

-- The loop over the paths.
unfoldable pub apply_paths : Document → Bundle → List Str → Applied
apply_paths doc b [] = applied b
apply_paths doc b (path ∷ paths) = elim (lookup doc path) [
  | none ↦ apply_paths doc b paths
  | some val ↦ elim (apply_scalar b path val) [
    | refused msg ↦ refused (path ++ codes ": " ++ msg)
    | applied b' ↦ apply_paths doc b' paths
  ]
]

-- The names of the groups as a sequence, if they are not given as a text.
unfoldable pub load_groups : Document → Bundle → Applied
load_groups doc b = elim b.cfg.backend_groups [
  | some s ↦ applied b
  | none ↦ elim (join_groups_sequence doc b) [
    | none ↦ refused (codes "backend.groups sequence too long")
    | some b' ↦ applied b'
  ]
]

unfoldable pub load_from_ctx : Document → Bundle → Applied
unfolding apply_paths load_groups
load_from_ctx doc b = elim doc.error [
  | some msg ↦ refused (codes "yaml parse: " ++ msg)
  | none ↦ elim (apply_paths doc b g_paths) [
    | refused msg ↦ refused msg
    | applied b' ↦ load_groups doc b'
  ]
]

-- What feeding a text to a new libyaml context gives: yaml_create fails, no byte is consumed, or the
-- document that the context then knows.
pub data Fed : Type 0 where
  not_created not_consumed : Fed
  known : Document → Fed

-- pqproxy_config_load_yaml_buf
unfoldable pub load_yaml_buf : Fed → Applied
unfolding load_from_ctx
load_yaml_buf not_created = refused (codes "yaml_create failed")
load_yaml_buf not_consumed = refused (codes "yaml_feed_input consumed 0")
load_yaml_buf (known doc) = load_from_ctx doc bundle_init

-- pqproxy_config_load_yaml: `files` gives the bytes of a file that can be opened.
unfoldable pub load_yaml : (Str → Option Str) → (Str → Fed) → Str → Applied
unfolding load_yaml_buf
load_yaml files yaml path = elim (files path) [
  | none ↦ refused (codes "cannot open " ++ path)
  | some [] ↦ applied bundle_init
  | some (c ∷ buf) ↦ load_yaml_buf (yaml (c ∷ buf))
]
