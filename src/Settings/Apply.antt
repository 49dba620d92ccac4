-- ===== src/Settings/Apply.antt =====
-- src/config_yaml.c, apply_scalar: the value of a key goes into the settings.
use pqproxy.Base.{
  Bool, false, ◌||◌, not, List, [], ◌∷◌, ◌++◌, none, some, Str, codes, ◌==◌, if◌then◌else◌,
}
use pqproxy.Settings.{Bundle}
use pqproxy.Settings.Setters.{
  Applied, refused, applied, is, with_cfg, set_text, set_flag, set_port, set_ms, set_address,
  is_slot,
}
use pqproxy.Settings.Rows.{first_match}
use pqproxy.Scalars.{parse_u16, parse_int, parse_size}

-- The keys of the listener.
unfoldable pub listen_rows : Bundle → Str → Str → List (Bool × Applied)
unfolding set_text set_port set_address
listen_rows b key val =
    let c = b.cfg in
    (
      is key (codes "listen.host") || is key (codes "listen_host"),
      set_text b val λ s. record c { listen_host = s },
    )
    ∷ (
      is key (codes "listen.port") || is key (codes "listen_port"),
      elim (parse_u16 val) [
        | none ↦ refused (codes "invalid port")
        | some n ↦
            if n == 0
            then refused (codes "invalid port")
            else applied (with_cfg b (record c { listen_port = n }))
      ],
    )
    ∷ (
      is key (codes "listen"),
      set_address b val c.listen_port λ h p. record c { listen_host = h; listen_port = p },
    )
    ∷ []

-- The keys of TLS. Without TLS no client certificate is required.
unfoldable pub tls_rows : Bundle → Str → Str → List (Bool × Applied)
unfolding set_text set_flag
tls_rows b key val =
    let c = b.cfg in
    (
      is key (codes "tls.plain") || is key (codes "plain"),
      set_flag b val
          λ v. record c { plain = v; require_mtls = if v then false else c.require_mtls },
    )
    ∷ (
      is key (codes "tls.require_mtls") || is key (codes "require_mtls"),
      set_flag b val λ v. record c { require_mtls = v },
    )
    ∷ (
      is key (codes "tls.cert") || is key (codes "cert"),
      set_text b val λ s. record c { cert_file = s },
    )
    ∷ (
      is key (codes "tls.key") || is key (codes "key"),
      set_text b val λ s. record c { key_file = s },
    )
    ∷ (is key (codes "tls.ca") || is key (codes "ca"), set_text b val λ s. record c { ca_file = s })
    ∷ (
      is key (codes "tls.ktls_prefer") || is key (codes "ktls_prefer"),
      set_flag b val λ v. record c { prefer_tls12_ktls = v },
    )
    ∷ []

-- The keys of the identity, and of sending without copies.
unfoldable pub identity_rows : Bundle → Str → Str → List (Bool × Applied)
unfolding set_text set_flag is_slot
identity_rows b key val =
    let c = b.cfg in
    (
      is key (codes "identity.slot") || is key (codes "identity_slot"),
      elim (parse_int val) [
        | none ↦ refused (codes "invalid slot")
        | some v ↦
            if is_slot v
            then applied (with_cfg b (record c { identity_slot = v }))
            else refused (codes "invalid slot")
      ],
    )
    ∷ (
      is key (codes "identity.param")
          || is key (codes "identity.param_name")
          || is key (codes "identity_param"),
      set_text b val λ s. record c { identity_param_name = s },
    )
    ∷ (
      is key (codes "msg_zerocopy") || is key (codes "zerocopy"),
      set_flag b val λ v. record c { msg_zerocopy = v },
    )
    ∷ []

-- The keys of the backend.
unfoldable pub backend_rows : Bundle → Str → Str → List (Bool × Applied)
unfolding set_text set_flag set_port set_address
backend_rows b key val =
    let c = b.cfg in
    (
      is key (codes "backend.host") || is key (codes "backend_host"),
      set_text b val λ s. record c { backend_host = s },
    )
    ∷ (
      is key (codes "backend.port") || is key (codes "backend_port"),
      set_port b val λ n. record c { backend_port = n },
    )
    ∷ (
      is key (codes "backend"),
      set_address b val c.backend_port λ h p. record c { backend_host = h; backend_port = p },
    )
    ∷ (
      is key (codes "backend.user") || is key (codes "backend_user"),
      set_text b val λ s. record c { backend_user = s },
    )
    ∷ (
      is key (codes "backend.password") || is key (codes "backend_password"),
      set_text b val λ s. record c { backend_password = s },
    )
    ∷ (
      is key (codes "backend.database") || is key (codes "backend_database"),
      set_text b val λ s. record c { backend_database = s },
    )
    ∷ (
      is key (codes "backend.pool_size") || is key (codes "backend_pool"),
      elim (parse_size val) [
        | none ↦ refused (codes "invalid size")
        | some n ↦ applied (with_cfg b (record c { backend_pool_size = n }))
      ],
    )
    ∷ (
      is key (codes "backend.group_login") || is key (codes "backend_group_login"),
      set_flag b val λ v. record c { backend_use_group_as_user = v },
    )
    ∷ (
      is key (codes "backend.groups") || is key (codes "backend_groups"),
      set_text b val λ s. record c { backend_groups = s },
    )
    ∷ (
      is key (codes "backend.lazy_group") || is key (codes "lazy_group"),
      set_flag b val λ v. record c { backend_lazy_group = v },
    )
    ∷ []

-- The keys of the metrics.
unfoldable pub metrics_rows : Bundle → Str → Str → List (Bool × Applied)
unfolding set_text set_port set_ms set_address
metrics_rows b key val =
    let c = b.cfg in
    (
      is key (codes "metrics.log_ms") || is key (codes "metrics_ms"),
      set_ms b val λ n. record c { metrics_log_interval_ms = n },
    )
    ∷ (is key (codes "metrics.http_host"), set_text b val λ s. record c { metrics_http_host = s })
    ∷ (is key (codes "metrics.http_port"), set_port b val λ n. record c { metrics_http_port = n })
    ∷ (
      is key (codes "metrics.http") || is key (codes "metrics_http"),
      if is val (codes "off") || is val (codes "false") || is val (codes "0")
          then applied (with_cfg b (record c { metrics_http_port = 0 }))
          else set_address b val c.metrics_http_port
              λ h p. record c { metrics_http_host = h; metrics_http_port = p },
    )
    ∷ []

-- The keys of the loop and of the logs.
unfoldable pub loop_rows : Bundle → Str → Str → List (Bool × Applied)
unfolding set_flag set_ms
loop_rows b key val =
    let c = b.cfg in
    (is key (codes "maintain_ms"), set_ms b val λ n. record c { maintain_interval_ms = n })
    ∷ (is key (codes "quiet"), set_flag b val λ v. record c { quiet = v })
    ∷ (
      is key (codes "fair_schedule") || is key (codes "fair"),
      set_flag b val λ v. record c { fair_schedule = v },
    )
    ∷ (
      is key (codes "reject_simple_query") || is key (codes "extended_only"),
      set_flag b val λ v. record c { reject_simple_query = v },
    )
    ∷ (
      is key (codes "allow_simple_query"),
      set_flag b val λ v. record c { reject_simple_query = not v },
    )
    ∷ (
      is key (codes "log_json") || is key (codes "structured_log"),
      set_flag b val λ v. record c { log_json = v },
    )
    ∷ []

-- A key that no row matches changes nothing.
unfoldable pub apply_scalar : Bundle → Str → Str → Applied
apply_scalar b key val = first_match (applied b) (
    listen_rows b key val
    ++ tls_rows b key val
    ++ identity_rows b key val
    ++ backend_rows b key val
    ++ metrics_rows b key val
    ++ loop_rows b key val)
