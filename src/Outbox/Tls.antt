-- ===== src/Outbox/Tls.antt =====
-- tls_drive_write writes from the front of the bytes that wait, and asks for POLLOUT if any are left.
use pqproxy.Base.{
  ℕ, ◌+◌, ◌≤◌, ◌≡◌, refl, sym, ap, subst, ◌∙◌, Bool, true, false, List, [], ◌∷◌, Option, none, some,
  leb, if◌then◌else◌, if_cases, length, drop, arith,
}
use pqproxy.Base.Each.{Each, nothing, value, of_value}
use pqproxy.Outbox.{Outbox, finished, TlsWrite, error, wait, took, tls_drive_write}
use pqproxy.Outbox.Order.{waiting, drop-drop, drop_all}

-- The number of bytes that OpenSSL took at the front of the answers.
abbrev pub taken : List TlsWrite → ℕ
taken [] = 0
taken (error ∷ more) = 0
taken (wait ∷ more) = 0
taken (took n ∷ more) = n + taken more

-- The bytes that wait are those of before, less the ones taken, and POLLOUT is asked for exactly if
-- some are left.
abbrev Written : List TlsWrite → Outbox → Outbox → Type 0
Written answers o o' =
    (waiting o' ≡ drop (taken answers) (waiting o)) × (o'.want_poll_out ≡ false → waiting o' ≡ [])

finished-Written :
    (answers : List TlsWrite) (o : Outbox)
    → length o.send_buf ≤ o.send_off
    → Written answers o (finished o)
finished-Written answers o h = (
  sym (
      ap (drop (taken answers)) (drop_all o.send_off o.send_buf h)
      ∙ drop_all (taken answers) [] (omega arith)),
  λ e. refl,
)

waits-Written :
    (answers : List TlsWrite) (o : Outbox)
    → taken answers ≡ 0
    → Written answers o (
        if leb (length o.send_buf) o.send_off
        then finished o
        else record o { want_poll_out = true })
waits-Written answers o h =
    if_cases (Written answers o) (leb (length o.send_buf) o.send_off)
      (λ e. finished-Written answers o (ground (arith, e)))
      (λ e. (ap (λ n. drop n (waiting o)) (sym h), λ k. cc))

tls_drive_write-Written :
    (answers : List TlsWrite) (o : Outbox) → Each (Written answers o) (tls_drive_write answers o)
unfolding tls_drive_write
tls_drive_write-Written [] o = value (waits-Written [] o refl)
tls_drive_write-Written (wait ∷ more) o = value (waits-Written (wait ∷ more) o refl)
tls_drive_write-Written (error ∷ more) o =
    if_cases (Each (Written (error ∷ more) o)) (leb (length o.send_buf) o.send_off)
      (λ e. value (finished-Written (error ∷ more) o (ground (arith, e)))) (λ e. nothing)
tls_drive_write-Written (took n ∷ more) o =
    go (leb (length o.send_buf) o.send_off) refl _
      (tls_drive_write-Written more (record o { send_off = o.send_off + n }))
  where
    further :
        (r : Option Outbox)
        → Each (Written more (record o { send_off = o.send_off + n })) r
        → Each (Written (took n ∷ more) o) r
    further none nothing = nothing
    further (some o') (value (e, k)) = value (
      e
          ∙ ap (drop (taken more)) (drop-drop o.send_off n o.send_buf)
          ∙ sym (drop-drop n (taken more) (waiting o)),
      k,
    )

    go :
        (done : Bool)
        → leb (length o.send_buf) o.send_off ≡ done
        → (r : Option Outbox) → Each (Written more (record o { send_off = o.send_off + n })) r
        → Each
            (Written (took n ∷ more) o)
            (elim done as (λ x. Option Outbox) [ true ↦ some (finished o) | false ↦ r ])
    go true e r h = value (finished-Written (took n ∷ more) o (ground (arith, e)))
    go false e r h = further r h

-- A write over TLS that does not fail leaves the bytes that wait less those that OpenSSL took, and
-- leaves none if it does not ask for POLLOUT.
pub tls_drive_write-waiting :
    (answers : List TlsWrite) (o o' : Outbox)
    → tls_drive_write answers o ≡ some o'
    → (waiting o' ≡ drop (taken answers) (waiting o)) × (o'.want_poll_out ≡ false → waiting o' ≡ [])
tls_drive_write-waiting answers o o' e =
    of_value (subst (Each (Written answers o)) e (tls_drive_write-Written answers o))
