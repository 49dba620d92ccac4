-- ===== src/Cli/Served.antt =====
-- What pqproxy_run may count on: the settings that main runs it with.
use pqproxy.Base.{
  ◌≡◌, refl, Bool, true, false, ◌&&◌, ◌||◌, not, List, [], ◌∷◌, Option, none, some, Str, codes,
  if_cases, subst,
}
use pqproxy.Settings.{Settings, Bundle, bundle_init}
use pqproxy.Settings.Rows.{first_match-Rows}
use pqproxy.Settings.Setters.{Applied, refused, applied, is, with_cfg}
use pqproxy.Settings.Load.{Fed, load_yaml}
use pqproxy.Settings.Rules.{SoundApplied}
use pqproxy.Base.Each.{AllOf}
use pqproxy.Settings.Guard.{WithMtls, Guarded, defaults-Guarded}
use pqproxy.Settings.InRange.{NeverPlain, load_yaml-Guarded}
use pqproxy.Cli.{
  Parsed, exits, goes_on, asks_help, parse_args, find_config, is_given, check_tls, and_then,
  load_config, main,
}
use pqproxy.Cli.Kept.{PortsFit, Kept, OnGoing, flags-Kept, values-Kept}

-- No argument is the option.
abbrev pub Lacks : Str → List Str → Type 0
Lacks option [] = Unit
Lacks option (arg ∷ args) = ¬ (is arg option ≡ true) × Lacks option args

-- No argument turns TLS off or stops asking for certificates.
abbrev pub StaysMtls : List Str → Type 0
StaysMtls args = Lacks (codes "--plain") args × Lacks (codes "--no-mtls") args

module _ (D : Type 0) where
  abbrev KeptBundle : Bundle → Type 0
  KeptBundle b = Kept D b.cfg

  args-Kept :
      (b : Bundle) (args : List Str)
      → (D → StaysMtls args)
      → Kept D b.cfg
      → OnGoing KeptBundle (parse_args b args)
  unfolding parse_args
  args-Kept b [] stays r = r
  args-Kept b (arg ∷ []) stays r =
      go (asks_help arg) _ (
        first_match-Rows none _ tt (flags-Kept D arg b.cfg (λ d. ((stays d).0.0, (stays d).1.0)) r))
    where
      go :
          (help : Bool) (o : Option Settings)
          → AllOf (Kept D) o
          → OnGoing KeptBundle (elim help as (λ x. Parsed) [
            | true ↦ exits 0
            | false ↦ elim o as (λ x. Parsed) [ some c ↦ goes_on (with_cfg b c) | none ↦ exits 2 ]
          ])
      go true o h = tt
      go false none h = tt
      go false (some c) h = h
  args-Kept b (arg ∷ v ∷ args) stays r =
      go (asks_help arg) _ _
        (λ c k. args-Kept (with_cfg b c) (v ∷ args) (λ d. ((stays d).0.1, (stays d).1.1)) k)
        (λ b' k. args-Kept b' args (λ d. ((stays d).0.1.1, (stays d).1.1.1)) k)
        (first_match-Rows none _ tt
          (flags-Kept D arg b.cfg (λ d. ((stays d).0.0, (stays d).1.0)) r))
        (first_match-Rows (exits 2) _ tt (values-Kept D arg v b r))
    where
      go :
          (help : Bool) (o : Option Settings) (p : Parsed)
          → ((c : Settings) → Kept D c → OnGoing KeptBundle (parse_args (with_cfg b c) (v ∷ args)))
          → ((b' : Bundle) → KeptBundle b' → OnGoing KeptBundle (parse_args b' args))
          → AllOf (Kept D) o
          → OnGoing KeptBundle p
          → OnGoing KeptBundle (elim help as (λ x. Parsed) [
            | true ↦ exits 0
            | false ↦ elim o as (λ x. Parsed) [
              | some c ↦ parse_args (with_cfg b c) (v ∷ args)
              | none ↦ elim p as (λ x. Parsed) [
                | exits code ↦ exits code
                | goes_on b' ↦ parse_args b' args
              ]
            ]
          ])
      go true o p f g h k = tt
      go false none (exits code) f g h k = tt
      go false none (goes_on b') f g h k = g b' k
      go false (some c) p f g h k = f c h

-- With TLS there are a certificate and a key, and a CA if clients must have certificates.
abbrev pub TlsReady : Settings → Type 0
TlsReady c =
    (c.plain ≡ false → (is_given c.cert_file ≡ true) × (is_given c.key_file ≡ true))
    × (c.plain ≡ false → c.require_mtls ≡ true → is_given c.ca_file ≡ true)

both_given :
    (plain cert key : Bool)
    → (not plain && (not cert || not key)) ≡ false
    → plain ≡ false
    → (cert ≡ true) × (key ≡ true)
both_given true cert key h e = cc
both_given false true true h e = (refl, refl)
both_given false true false h e = cc
both_given false false key h e = cc

ca_given :
    (plain mtls ca : Bool)
    → (not plain && mtls && not ca) ≡ false
    → plain ≡ false
    → mtls ≡ true
    → ca ≡ true
ca_given true mtls ca h e k = cc
ca_given false false ca h e k = cc
ca_given false true true h e k = refl
ca_given false true false h e k = cc

check_tls-TlsReady :
    (P : Settings → Type 0) (b : Bundle)
    → P b.cfg
    → OnGoing (λ b'. P b'.cfg × TlsReady b'.cfg) (check_tls b)
unfolding check_tls
check_tls-TlsReady P b h =
    let c = b.cfg in
    let Ready : Parsed → Type 0 = OnGoing (λ b'. P b'.cfg × TlsReady b'.cfg) in
    if_cases Ready (not c.plain && (not (is_given c.cert_file) || not (is_given c.key_file)))
      (λ e. tt)
      λ files.
        if_cases Ready (not c.plain && c.require_mtls && not (is_given c.ca_file)) (λ e. tt)
          λ ca. (
            h,
            (
              both_given c.plain (is_given c.cert_file) (is_given c.key_file) files,
              ca_given c.plain c.require_mtls (is_given c.ca_file) ca,
            ),
          )

config-Guarded :
    (files : Str → Option Str) (yaml : Str → Fed) (path : Option Str)
    → OnGoing (λ b. Guarded (NeverPlain yaml) b.cfg) (load_config files yaml path)
unfolding load_config bundle_init
config-Guarded files yaml none = defaults-Guarded (NeverPlain yaml)
config-Guarded files yaml (some path) =
    go (load_yaml files yaml path) (load_yaml-Guarded files yaml path)
  where
    go :
        (r : Applied)
        → SoundApplied (Guarded (NeverPlain yaml)) r
        → OnGoing
            (λ b. Guarded (NeverPlain yaml) b.cfg)
            (elim r as (λ x. Parsed) [ refused msg ↦ exits 2 | applied b ↦ goes_on b ])
    go (refused msg) h = tt
    go (applied b) h = h.0

and_then-OnGoing :
    (P R : Bundle → Type 0) (p : Parsed) (f : Bundle → Parsed)
    → OnGoing P p
    → ((b : Bundle) → P b → OnGoing R (f b))
    → OnGoing R (and_then p f)
and_then-OnGoing P R (exits code) f h k = tt
and_then-OnGoing P R (goes_on b) f h k = k b h

main-Kept :
    (files : Str → Option Str) (yaml : Str → Fed) (args : List Str)
    → OnGoing
        (λ b. Kept (NeverPlain yaml × (StaysMtls args)) b.cfg × TlsReady b.cfg)
        (main files yaml args)
unfolding main
main-Kept files yaml args =
    let D : Type 0 = NeverPlain yaml × StaysMtls args in
    and_then-OnGoing (λ b. Guarded (NeverPlain yaml) b.cfg) _
      (load_config files yaml (find_config none args)) _
      (config-Guarded files yaml (find_config none args))
      λ b ((l, p, h, i, t, g), m).
        and_then-OnGoing (λ b. Kept D b.cfg) _ (parse_args b args) check_tls
          (args-Kept D b args (λ d. d.1) ((l, p, h), λ d. m d.0))
          λ b' k. check_tls-TlsReady (Kept D) b' k

-- Whatever the file and the arguments say, the settings that main runs have ports that fit 16 bits
-- and a listener's port other than 0; with TLS they name a certificate and a key, and a CA if
-- clients must have certificates.
pub main-PortsFit :
    (files : Str → Option Str) (yaml : Str → Fed) (args : List Str) (b : Bundle)
    → main files yaml args ≡ goes_on b
    → PortsFit b.cfg × TlsReady b.cfg
main-PortsFit files yaml args b e =
    let ((p, m), t) =
      subst (OnGoing λ b. Kept (NeverPlain yaml × StaysMtls args) b.cfg × TlsReady b.cfg) e
        (main-Kept files yaml args) in
    (p, t)

-- If no document sets plain or require_mtls and no argument is --plain or --no-mtls, then whatever
-- else the file and the arguments say, the settings that main runs have TLS, require client
-- certificates, and name a certificate, a key and a CA.
pub main-WithMtls :
    (files : Str → Option Str) (yaml : Str → Fed) (args : List Str) (b : Bundle)
    → NeverPlain yaml
    → StaysMtls args
    → main files yaml args ≡ goes_on b
    → WithMtls b.cfg
      × (is_given b.cfg.cert_file ≡ true)
      × (is_given b.cfg.key_file ≡ true)
      × (is_given b.cfg.ca_file ≡ true)
main-WithMtls files yaml args b never stays e =
    let ((p, m), (files_ready, ca_ready)) =
      subst (OnGoing λ b. Kept (NeverPlain yaml × StaysMtls args) b.cfg × TlsReady b.cfg) e
        (main-Kept files yaml args) in
    let (plain, mtls) = m (never, stays) in
    let (cert, key) = files_ready plain in ((plain, mtls), cert, key, ca_ready plain mtls)
