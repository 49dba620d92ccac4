-- ===== src/Examples/Commands.antt =====
-- A configuration file and command lines.
use pqproxy.Base.{
  ◌≤◌, ◌≡◌, refl, true, false, List, [], ◌∷◌, Option, none, some, Str, codes, str_eq, if◌then◌else◌,
  length,
}
use pqproxy.Base.Atoi.{strtol, digits, skip_spaces}
use pqproxy.Scalars.{parse_u16, u16_of}
use pqproxy.Settings.{defaults, Bundle, bundle_init, owned_max}
use pqproxy.Settings.Apply.{
  listen_rows, tls_rows, identity_rows, backend_rows, metrics_rows, loop_rows, apply_scalar,
}
use pqproxy.Settings.Setters.{applied}
use pqproxy.Settings.Load.{
  Document, lookup, join_from, join_groups_sequence, apply_paths, load_groups, load_from_ctx, Fed,
  not_created, known, load_yaml_buf, load_yaml,
}
use pqproxy.Settings.Guard.{InRange, WithMtls}
use pqproxy.Settings.InRange.{load_yaml-InRange}
use pqproxy.Cli.{
  goes_on, parse_args, flag_rows, value_rows, find_config, is_given, check_tls, load_config, main,
}
use pqproxy.Cli.Kept.{PortsFit}
use pqproxy.Cli.Served.{TlsReady, StaysMtls, main-PortsFit, main-WithMtls}

-- A document that only sets the port of the listener.
abbrev port_document : Document
port_document = record {
  error = none;
  scalar = λ path. if str_eq path (codes "listen.port") then some (codes "7000") else none;
  child_count = λ path. 0;
  child = λ path i. none;
}

abbrev one_file : Str → Option Str
one_file path = some (codes "listen: {port: 7000}")

abbrev port_yaml : Str → Fed
port_yaml s = known port_document

abbrev port_7000 : Bundle
port_7000 = record { cfg = record defaults { listen_port = 7000 }; owned = [] }

port_7000-loaded : load_yaml one_file port_yaml (codes "pqproxy.yaml") ≡ applied port_7000
unfolding load_yaml load_yaml_buf load_from_ctx apply_paths load_groups join_groups_sequence
    join_from lookup apply_scalar listen_rows tls_rows identity_rows backend_rows metrics_rows
    loop_rows parse_u16 u16_of strtol skip_spaces digits str_eq bundle_init defaults
port_7000-loaded = refl

load_yaml-InRange_example : InRange port_7000.cfg × (length port_7000.owned ≤ owned_max)
load_yaml-InRange_example =
    load_yaml-InRange one_file port_yaml (codes "pqproxy.yaml") port_7000 port_7000-loaded

abbrev no_yaml : Str → Fed
no_yaml s = not_created

abbrev tls_args : List Str
tls_args =
    codes "--cert"
    ∷ codes "c.pem"
    ∷ codes "--fair"
    ∷ codes "--key"
    ∷ codes "k.pem"
    ∷ codes "--ca"
    ∷ codes "ca.pem"
    ∷ []

abbrev tls_bundle : Bundle
tls_bundle = record bundle_init {
  cfg = record defaults {
    cert_file = some (codes "c.pem");
    key_file = some (codes "k.pem");
    ca_file = some (codes "ca.pem");
  };
}

tls_args-run : main one_file no_yaml tls_args ≡ goes_on tls_bundle
unfolding main find_config load_config parse_args check_tls flag_rows value_rows str_eq bundle_init
    defaults
tls_args-run = refl

main-PortsFit_example : PortsFit tls_bundle.cfg × TlsReady tls_bundle.cfg
main-PortsFit_example = main-PortsFit one_file no_yaml tls_args tls_bundle tls_args-run

tls_args-StaysMtls : StaysMtls tls_args
unfolding str_eq
tls_args-StaysMtls =
    let unlike : ¬ (false ≡ true) = λ e. cc in
    (
      (unlike, (unlike, (unlike, (unlike, (unlike, (unlike, (unlike, tt))))))),
      (unlike, (unlike, (unlike, (unlike, (unlike, (unlike, (unlike, tt))))))),
    )

main-WithMtls_example :
    WithMtls tls_bundle.cfg
    × (is_given tls_bundle.cfg.cert_file ≡ true)
    × (is_given tls_bundle.cfg.key_file ≡ true)
    × (is_given tls_bundle.cfg.ca_file ≡ true)
main-WithMtls_example =
    main-WithMtls one_file no_yaml tls_args tls_bundle (λ s doc e. cc) tls_args-StaysMtls
      tls_args-run
