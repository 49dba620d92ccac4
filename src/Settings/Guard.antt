-- ===== src/Settings/Guard.antt =====
-- What a configuration file leaves in range and guarded, whatever it says.
use pqproxy.Base.{
  ℕ, ◌≤◌, ◌≡◌, refl, Bool, true, false, ◌||◌, not, Option, none, some, ℤ, pos, Str, codes,
  is_nonneg, ◌==◌, if◌then◌else◌, if_cases, length, arith,
}
use pqproxy.Scalars.{parse_u16, parse_int, parse_size}
use pqproxy.Settings.{Settings, defaults, Bundle, owned_max}
use pqproxy.Settings.Apply.{
  listen_rows, tls_rows, identity_rows, backend_rows, metrics_rows, loop_rows, apply_scalar,
}
use pqproxy.Settings.Setters.{
  Applied, refused, applied, is, with_cfg, set_text, set_flag, set_ms, is_slot,
}
use pqproxy.Settings.Rows.{row, no_row}
use pqproxy.Settings.Rules.{
  SoundApplied, SoundRows, set_text-sound, set_flag-sound, set_port-sound, set_ms-sound,
  set_address-sound, apply_scalar-sound,
}
use pqproxy.Settings.Ports.{IsPort, parse_u16-le}
use pqproxy.Base.Each.{AllOf}

-- The ports fit 16 bits, that of the listener is not 0, the slot is -1 to 32767 and the intervals are
-- not negative.
abbrev pub InRange : Settings → Type 0
InRange c =
    IsPort c.listen_port
    × (c.backend_port ≤ 65535)
    × (c.metrics_http_port ≤ 65535)
    × (is_slot c.identity_slot ≡ true)
    × (is_nonneg c.maintain_interval_ms ≡ true)
    × (is_nonneg c.metrics_log_interval_ms ≡ true)

-- There is TLS, with client certificates.
abbrev pub WithMtls : Settings → Type 0
WithMtls c = (c.plain ≡ false) × (c.require_mtls ≡ true)

-- In range, and under `D` with client certificates.
abbrev pub Guarded : Type 0 → Settings → Type 0
Guarded D c = InRange c × (D → WithMtls c)

pub defaults-Guarded : (D : Type 0) → Guarded D defaults
unfolding defaults is_slot
defaults-Guarded D =
    (((omega arith, omega arith), omega arith, omega arith, refl, refl, refl), λ d. (refl, refl))

-- The keys that turn TLS off or stop asking for certificates.
abbrev pub is_plain : Str → Bool
is_plain key = is key (codes "tls.plain") || is key (codes "plain")

abbrev pub is_require : Str → Bool
is_require key = is key (codes "tls.require_mtls") || is key (codes "require_mtls")

module _ (D : Type 0) (b : Bundle) (key val : Str) (not_plain : D → ¬ (is_plain key ≡ true))
    (not_require : D → ¬ (is_require key ≡ true)) (r : Guarded D b.cfg)
    (room : length b.owned ≤ owned_max) where
  abbrev Q : Settings → Type 0
  Q = Guarded D

  abbrev Kept : Applied → Type 0
  Kept = SoundApplied (Guarded D)

  text :
      (store : Option Str → Settings)
      → ((s : Option Str) → Guarded D (store s))
      → Kept (set_text b val store)
  text = set_text-sound Q b val

  flag :
      (store : Bool → Settings) → ((v : Bool) → Guarded D (store v)) → Kept (set_flag b val store)
  flag store keep = set_flag-sound Q b val store keep room

  ms : (store : ℤ → Settings) → ((n : ℕ) → Guarded D (store (pos n))) → Kept (set_ms b val store)
  ms store keep = set_ms-sound Q b val store keep room

  listened :
      (o : Option ℕ)
      → AllOf (λ n. n ≤ 65535) o
      → Kept (elim o as (λ x. Applied) [
        | none ↦ refused (codes "invalid port")
        | some n ↦
            if n == 0
            then refused (codes "invalid port")
            else applied (with_cfg b (record b.cfg { listen_port = n }))
      ])
  listened none h = tt
  listened (some n) h =
      let ((l, p, m, i, t, g), d) = r in
      if_cases Kept (n == 0) (λ e. tt) (λ e. ((((ground (arith, e), h), p, m, i, t, g), d), room))

  listen_keeps : SoundRows Q (listen_rows b key val)
  unfolding listen_rows
  listen_keeps =
      let ((l, p, m, i, t, g), d) = r in
      row (λ e. text (λ v. record b.cfg { listen_host = v }) (λ v. r))
        (row (λ e. listened (parse_u16 val) (parse_u16-le val))
          (row
            (λ e.
              set_address-sound Q b val b.cfg.listen_port
                (λ h p. record b.cfg { listen_host = h; listen_port = p }) (λ s. r)
                (λ s n h. ((h, p, m, i, t, g), d)))
            no_row))

  tls_keeps : SoundRows Q (tls_rows b key val)
  unfolding tls_rows
  tls_keeps =
      let ((l, p, m, i, t, g), d) = r in
      row
        (λ e.
          flag
            (λ v. record b.cfg {
              plain = v;
              require_mtls = if v then false else b.cfg.require_mtls;
            })
            (λ v. ((l, p, m, i, t, g), λ a. absurd (not_plain a e))))
        (row
          (λ e.
            flag (λ v. record b.cfg { require_mtls = v })
              (λ v. ((l, p, m, i, t, g), λ a. absurd (not_require a e))))
          (row (λ e. text (λ v. record b.cfg { cert_file = v }) (λ v. r))
            (row (λ e. text (λ v. record b.cfg { key_file = v }) (λ v. r))
              (row (λ e. text (λ v. record b.cfg { ca_file = v }) (λ v. r))
                (row (λ e. flag (λ v. record b.cfg { prefer_tls12_ktls = v }) (λ v. r)) no_row)))))

  slotted :
      (o : Option ℤ)
      → Kept (elim o as (λ x. Applied) [
        | none ↦ refused (codes "invalid slot")
        | some v ↦
            if is_slot v
            then applied (with_cfg b (record b.cfg { identity_slot = v }))
            else refused (codes "invalid slot")
      ])
  slotted none = tt
  slotted (some v) =
      let ((l, p, m, i, t, g), d) = r in
      if_cases Kept (is_slot v) (λ e. (((l, p, m, e, t, g), d), room)) (λ e. tt)

  identity_keeps : SoundRows Q (identity_rows b key val)
  unfolding identity_rows
  identity_keeps =
      row (λ e. slotted (parse_int val))
        (row (λ e. text (λ v. record b.cfg { identity_param_name = v }) (λ v. r))
          (row (λ e. flag (λ v. record b.cfg { msg_zerocopy = v }) (λ v. r)) no_row))

  sized :
      (o : Option ℕ)
      → Kept (elim o as (λ x. Applied) [
        | none ↦ refused (codes "invalid size")
        | some n ↦ applied (with_cfg b (record b.cfg { backend_pool_size = n }))
      ])
  sized none = tt
  sized (some n) = (r, room)

  backend_keeps : SoundRows Q (backend_rows b key val)
  unfolding backend_rows
  backend_keeps =
      let ((l, p, m, i, t, g), d) = r in
      row (λ e. text (λ v. record b.cfg { backend_host = v }) (λ v. r))
        (row
          (λ e.
            set_port-sound Q b val (λ n. record b.cfg { backend_port = n })
              (λ n h. ((l, h, m, i, t, g), d)) room)
          (row
            (λ e.
              set_address-sound Q b val b.cfg.backend_port
                (λ h p. record b.cfg { backend_host = h; backend_port = p }) (λ s. r)
                (λ s n h. ((l, h.1, m, i, t, g), d)))
            (row (λ e. text (λ v. record b.cfg { backend_user = v }) (λ v. r))
              (row (λ e. text (λ v. record b.cfg { backend_password = v }) (λ v. r))
                (row (λ e. text (λ v. record b.cfg { backend_database = v }) (λ v. r))
                  (row (λ e. sized (parse_size val))
                    (row (λ e. flag (λ v. record b.cfg { backend_use_group_as_user = v }) (λ v. r))
                      (row (λ e. text (λ v. record b.cfg { backend_groups = v }) (λ v. r))
                        (row (λ e. flag (λ v. record b.cfg { backend_lazy_group = v }) (λ v. r))
                          no_row)))))))))

  metrics_keeps : SoundRows Q (metrics_rows b key val)
  unfolding metrics_rows
  metrics_keeps =
      let ((l, p, m, i, t, g), d) = r in
      row
        (λ e.
          ms (λ n. record b.cfg { metrics_log_interval_ms = n }) (λ n. ((l, p, m, i, t, refl), d)))
        (row (λ e. text (λ v. record b.cfg { metrics_http_host = v }) (λ v. r))
          (row
            (λ e.
              set_port-sound Q b val (λ n. record b.cfg { metrics_http_port = n })
                (λ n h. ((l, p, h, i, t, g), d)) room)
            (row
              (λ e.
                if_cases Kept (is val (codes "off") || is val (codes "false") || is val (codes "0"))
                  (λ off. (((l, p, omega arith, i, t, g), d), room))
                  (λ on.
                    set_address-sound Q b val b.cfg.metrics_http_port
                      (λ h p. record b.cfg { metrics_http_host = h; metrics_http_port = p })
                      (λ s. r) (λ s n h. ((l, p, h.1, i, t, g), d))))
              no_row)))

  loop_keeps : SoundRows Q (loop_rows b key val)
  unfolding loop_rows
  loop_keeps =
      let ((l, p, m, i, t, g), d) = r in
      row
        (λ e. ms (λ n. record b.cfg { maintain_interval_ms = n }) (λ n. ((l, p, m, i, refl, g), d)))
        (row (λ e. flag (λ v. record b.cfg { quiet = v }) (λ v. r))
          (row (λ e. flag (λ v. record b.cfg { fair_schedule = v }) (λ v. r))
            (row (λ e. flag (λ v. record b.cfg { reject_simple_query = v }) (λ v. r))
              (row (λ e. flag (λ v. record b.cfg { reject_simple_query = not v }) (λ v. r))
                (row (λ e. flag (λ v. record b.cfg { log_json = v }) (λ v. r)) no_row)))))

  pub apply_scalar-Guarded : SoundApplied (Guarded D) (apply_scalar b key val)
  apply_scalar-Guarded =
      apply_scalar-sound Q b key val (r, room) listen_keeps tls_keeps identity_keeps backend_keeps
        metrics_keeps loop_keeps
