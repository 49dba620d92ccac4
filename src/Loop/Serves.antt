-- ===== src/Loop/Serves.antt =====
-- The input of a client over TLS keeps the leases.
use pqproxy.Base.{
  ℕ, refl, Bool, true, false, if_cases, ◌&&◌, List, Option, none, some, ltb, ◌==◌, if◌then◌else◌,
  length,
}
use pqproxy.Outbox.{Outbox, TlsWrite, tls_drive_write}
use pqproxy.Loop.{Backend, cs_closing, Client, Server, Setup, FrontApi, Handled, put}
use pqproxy.Loop.Schedule.{is_closing}
use pqproxy.Loop.Frontend.{process_frontend}
use pqproxy.Loop.Serving.{
  Handshake, hs_failed, hs_waits, hs_done, tls_identity, tls_on_handshake_done,
}
use pqproxy.Loop.Dispatch.{
  Reads, wants, closes, fails, piece, Polled, poll_error, ready, then_do, is_handshaking, write_tls,
  tls_drive_read, tls_transfer, tls_shake, on_tls_poll,
}
use pqproxy.Loop.Leases.{Watched, Sure, put-Apart, Apart-Sure, Steady}
use pqproxy.Loop.Renews.{put-Steady}
use pqproxy.Loop.Events.{process_frontend-Fit}
use pqproxy.Loop.Accepts.{poll_again-Apart, tls_identity-fits, handshake_done-Fit}

module _ {P : Type 0} {b : Backend P} (laws : Watched b) (nd : (i : ℕ) → laws.drops i → ⊥)
    (cfg : Setup) (api : FrontApi) (G : Type 0) (i : ℕ) (w : laws.follows i) where
  abbrev Fit : Server P → Type 0
  Fit s = Sure (λ v. G × Steady laws v) s

  closing-Fit : (s : Server P) → Fit s → Fit (put s i (record (s.conns i) { state = cs_closing }))
  closing-Fit s pre h =
      let (g, st) = pre h in
      (
        g,
        put-Steady laws s i (record (s.conns i) { state = cs_closing }) refl (st.leases.short i)
            refl st,
      )

  write_tls-Fit :
      (writes : List TlsWrite) (s : Server P) → Fit s → Fit (write_tls b cfg api writes s i).1
  unfolding write_tls
  write_tls-Fit writes s pre = at (tls_drive_write writes (s.conns i).out)
    where
      at :
          (o : Option Outbox)
          → Fit
              (elim o as (λ x. Handled P) [
                | none ↦ (false, s)
                | some o ↦ (true, put s i (record (s.conns i) { out = o }))
              ]).1
      at none = pre
      at (some o) =
          Apart-Sure (λ v. G × Steady laws v)
            (put-Apart s i (record (s.conns i) { out = o }) refl refl refl) pre

  drive_read-Fit :
      (reads : Reads) (s : Server P) → Fit s → Fit (tls_drive_read b cfg api reads s i).1
  unfolding tls_drive_read
  drive_read-Fit wants s pre = pre
  drive_read-Fit closes s pre = closing-Fit s pre
  drive_read-Fit fails s pre = pre
  drive_read-Fit (piece events reads) s pre =
      let now = process_frontend-Fit laws nd cfg api G i w s events pre in
      at (process_frontend b cfg api s i events).0 now
        (drive_read-Fit reads (process_frontend b cfg api s i events).1 now)
    where
      at :
          (ok : Bool)
          → Fit (process_frontend b cfg api s i events).1
          → Fit (tls_drive_read b cfg api reads (process_frontend b cfg api s i events).1 i).1
          → Fit
              (elim ok as (λ x. Handled P) [
                | true ↦ tls_drive_read b cfg api reads (process_frontend b cfg api s i events).1 i
                | false ↦ (false, (process_frontend b cfg api s i events).1)
              ]).1
      at true now later = later
      at false now later = now

  then_do-Fit :
      (r : Handled P) (next : Server P → Handled P)
      → Fit r.1
      → ((s : Server P) → Fit s → Fit (next s).1)
      → Fit (then_do r next).1
  then_do-Fit (true, s) next pre k = k s pre
  then_do-Fit (false, s) next pre k = pre

  transfer-Fit :
      (readable writable : Bool) (reads : Reads) (writes more : List TlsWrite) (s : Server P)
      → Fit s
      → Fit (tls_transfer b cfg api readable writable reads writes more s i).1
  unfolding tls_transfer
  transfer-Fit readable writable reads writes more s pre =
      let Q = λ (r : Handled P). Fit r.1 in
      then_do-Fit (if writable then write_tls b cfg api writes s i else (true, s)) _
        (if_cases Q writable (λ e. write_tls-Fit writes s pre) (λ e. pre))
        λ s1 f1.
          then_do-Fit (if readable then tls_drive_read b cfg api reads s1 i else (true, s1)) _
            (if_cases Q readable (λ e. drive_read-Fit reads s1 f1) (λ e. f1))
            λ s2 f2.
              let o = (s2.conns i).out in
              then_do-Fit
                (if ltb o.send_off (length o.send_buf)
                  then write_tls b cfg api more s2 i
                  else (true, s2))
                _
                (if_cases Q (ltb o.send_off (length o.send_buf)) (λ e. write_tls-Fit more s2 f2)
                  (λ e. f2))
                λ s3 f3.
                  if_cases Q
                    (is_closing (s3.conns i).state && length (s3.conns i).out.send_buf == 0)
                    (λ e. f3)
                    (λ e. Apart-Sure (λ v. G × Steady laws v) (poll_again-Apart b cfg api s3 i) f3)

  shake-Fit :
      (hs : Handshake) (s : Server P) (next : Server P → Handled P)
      → Fit s
      → ((t : Server P) → Fit t → Fit (next t).1)
      → Fit (tls_shake b cfg api hs s i next).1
  unfolding tls_shake
  shake-Fit hs_failed s next pre k = pre
  shake-Fit (hs_waits write) s next pre k =
      let c : Client = record (s.conns i) {
        out = record (s.conns i).out { want_poll_out = write };
      } in
      Apart-Sure (λ v. G × Steady laws v) (poll_again-Apart b cfg api (put s i c) i)
        (Apart-Sure (λ v. G × Steady laws v) (put-Apart s i c refl refl refl) pre)
  shake-Fit (hs_done cert) s next pre k =
      then_do-Fit (tls_on_handshake_done b cfg api s i (tls_identity cert)) next
        (handshake_done-Fit laws cfg api G i s (tls_identity cert) (tls_identity-fits cert) pre) k

  pub on_tls_poll-Fit : (s : Server P) (r : Polled) → Fit s → Fit (on_tls_poll b cfg api s i r).1
  unfolding on_tls_poll
  on_tls_poll-Fit s poll_error pre = pre
  on_tls_poll-Fit s (ready readable writable hs reads writes more) pre =
      if_cases (λ (r : Handled P). Fit r.1) (is_handshaking (s.conns i).state)
        (λ e.
          shake-Fit hs s (λ t. tls_transfer b cfg api readable writable reads writes more t i) pre
            (λ t f. transfer-Fit readable writable reads writes more t f))
        (λ e. transfer-Fit readable writable reads writes more s pre)
