-- ===== src/Cli/Kept.antt =====
-- What the arguments keep of the settings.
use pqproxy.Base.{
  ℕ, ◌≤◌, ◌^◌, ◌≡◌, true, ◌&&◌, [], ◌∷◌, Option, none, some, ℤ, pos, negsuc, Str, codes, ltb, leb,
  if◌then◌else◌, if_cases, length, low16, arith,
}
use native.Mathlib.Nat.{mod-lt}
use pqproxy.Base.Atoi.{atoi}
use pqproxy.Settings.{Settings, Bundle, split_last, port_of}
use pqproxy.Settings.Rows.{Rows, row, no_row}
use pqproxy.Settings.Setters.{is, with_cfg}
use pqproxy.Settings.Ports.{IsPort, port_of-IsPort}
use pqproxy.Base.Each.{AllOf}
use pqproxy.Settings.Guard.{WithMtls}
use pqproxy.Cli.{
  Parsed, exits, goes_on, own, parse_listen, flag_rows, set_backend, set_metrics_port,
  first_is_digit, set_metrics_text, set_metrics, or_exit_2, value_rows,
}

-- The ports fit 16 bits, and that of the listener is not 0.
abbrev pub PortsFit : Settings → Type 0
PortsFit c = IsPort c.listen_port × (c.backend_port ≤ 65535) × (c.metrics_http_port ≤ 65535)

-- The ports fit, and under `D` there is TLS with client certificates.
abbrev pub Kept : Type 0 → Settings → Type 0
Kept D c = PortsFit c × (D → WithMtls c)

abbrev pub OnGoing : (Bundle → Type 0) → Parsed → Type 0
OnGoing P (exits code) = Unit
OnGoing P (goes_on b) = P b

low16-le : (v : ℤ) → low16 v ≤ 65535
low16-le (pos n) = omega (arith, mod-lt n {m = 2 ^ 16} (omega arith))
low16-le (negsuc n) = omega arith

module _ (D : Type 0) where
  abbrev KeptBundle : Bundle → Type 0
  KeptBundle b = Kept D b.cfg

  listen-Kept :
      (s : Str) (b : Bundle) → Kept D b.cfg → OnGoing KeptBundle (or_exit_2 (parse_listen s b))
  unfolding parse_listen
  listen-Kept s b ((l, p, h), m) = go (split_last b':' s)
    where
      ported :
          (host : Str) (o : Option ℕ)
          → AllOf IsPort o
          → OnGoing KeptBundle (
              or_exit_2 (elim o as (λ x. Option Bundle) [
                | none ↦ none
                | some port ↦ some (
                    with_cfg
                      (own b host)
                      (record b.cfg { listen_host = some host; listen_port = port }))
              ]))
      ported host none e = tt
      ported host (some port) e = ((e, p, h), m)

      go :
          (o : Option (Str × Str))
          → OnGoing KeptBundle (
              or_exit_2 (elim o as (λ x. Option Bundle) [
                | none ↦ none
                | some ([], after) ↦ none
                | some (c ∷ host, after) ↦
                    if leb 256 (length (c ∷ host))
                    then none
                    else elim (port_of after) as (λ x. Option Bundle) [
                      | none ↦ none
                      | some port ↦ some (
                          with_cfg
                            (own b (c ∷ host))
                            (record b.cfg { listen_host = some (c ∷ host); listen_port = port }))
                    ]
              ]))
      go none = tt
      go (some ([], after)) = tt
      go (some (c ∷ host, after)) =
          if_cases (λ o. OnGoing KeptBundle (or_exit_2 o)) (leb 256 (length (c ∷ host))) (λ e. tt)
            (λ e. ported (c ∷ host) (port_of after) (port_of-IsPort after))

  backend-Kept : (s : Str) (c : Settings) → Kept D c → Kept D (set_backend s c)
  unfolding set_backend
  backend-Kept s c ((l, p, h), m) = go (split_last b':' s)
    where
      go :
          (o : Option (Str × Str))
          → Kept D (elim o as (λ x. Settings) [
            | none ↦ record c { backend_host = some s; backend_port = 5432 }
            | some (host, after) ↦ record c {
              backend_host = some host;
              backend_port = low16 (atoi after);
            }
          ])
      go none = ((l, omega arith, h), m)
      go (some (host, after)) = ((l, low16-le (atoi after), h), m)

  metrics_text-Kept : (s : Str) (v : ℤ) (c : Settings) → Kept D c → Kept D (set_metrics_text s v c)
  unfolding set_metrics_text
  metrics_text-Kept s (negsuc n) c r = r
  metrics_text-Kept s (pos n) c ((l, p, h), m) =
      if_cases (Kept D) (ltb 0 n && leb n 65535 && first_is_digit s)
        (λ e. ((l, p, ground (arith, e)), m)) (λ e. ((l, p, h), m))

  metrics-Kept : (s : Str) (c : Settings) → Kept D c → Kept D (set_metrics s c)
  unfolding set_metrics
  metrics-Kept s c r = go (split_last b':' s)
    where
      go :
          (o : Option (Str × Str))
          → Kept D (elim o as (λ x. Settings) [
            | none ↦ set_metrics_text s (atoi s) c
            | some ([], after) ↦ set_metrics_text s (atoi s) c
            | some (a ∷ host, after) ↦ record c {
              metrics_http_host = some (a ∷ host);
              metrics_http_port = low16 (atoi after);
            }
          ])
      go none = metrics_text-Kept s (atoi s) c r
      go (some ([], after)) = metrics_text-Kept s (atoi s) c r
      go (some (a ∷ host, after)) = let ((l, p, h), m) = r in ((l, p, low16-le (atoi after)), m)

  metrics_port-Kept :
      (p : ℤ) (b : Bundle)
      → Kept D b.cfg
      → OnGoing KeptBundle (elim (set_metrics_port p b.cfg) as (λ x. Parsed) [
        | none ↦ exits 2
        | some c ↦ goes_on (with_cfg b c)
      ])
  unfolding set_metrics_port
  metrics_port-Kept (negsuc n) b r = tt
  metrics_port-Kept (pos n) b ((l, p, h), m) =
      if_cases
        (λ (o : Option Settings).
          OnGoing KeptBundle
            (elim o as (λ x. Parsed) [ none ↦ exits 2 | some c ↦ goes_on (with_cfg b c) ]))
        (ltb 65535 n) (λ e. tt) (λ e. ((l, p, ground (arith, e)), m))

  pub flags-Kept :
      (arg : Str) (c : Settings)
      → (D → ¬ (is arg (codes "--plain") ≡ true) × ¬ (is arg (codes "--no-mtls") ≡ true))
      → Kept D c
      → Rows (AllOf (Kept D)) (flag_rows arg c)
  unfolding flag_rows
  flags-Kept arg c bare ((l, p, h), m) =
      let q : PortsFit c = (l, p, h) in
      row (λ e. (q, λ a. absurd ((bare a).0 e)))
        (row (λ e. (q, λ a. absurd ((bare a).1 e)))
          (row (λ e. (q, m))
            (row (λ e. (q, m))
              (row (λ e. (q, m))
                (row (λ e. (q, m))
                  (row (λ e. (q, m))
                    (row (λ e. (q, m))
                      (row (λ e. (q, m))
                        (row (λ e. (q, m))
                          (row (λ e. (q, m))
                            (row (λ e. (q, m))
                              (row (λ e. (q, m))
                                (row (λ e. ((l, p, omega arith), m)) no_row)))))))))))))

  pub values-Kept :
      (arg v : Str) (b : Bundle) → Kept D b.cfg → Rows (OnGoing KeptBundle) (value_rows arg v b)
  unfolding value_rows
  values-Kept arg v b r =
      row (λ e. r)
        (row (λ e. listen-Kept v b r)
          (row (λ e. r)
            (row (λ e. r)
              (row (λ e. r)
                (row (λ e. r)
                  (row (λ e. r)
                    (row (λ e. backend-Kept v b.cfg r)
                      (row (λ e. r)
                        (row (λ e. r)
                          (row (λ e. r)
                            (row (λ e. r)
                              (row (λ e. r)
                                (row (λ e. r)
                                  (row (λ e. r)
                                    (row (λ e. metrics_port-Kept (atoi v) b r)
                                      (row (λ e. metrics-Kept v b.cfg r) no_row))))))))))))))))
