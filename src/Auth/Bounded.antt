-- ===== src/Auth/Bounded.antt =====
-- How much the login may send, whatever the backend answers.
use pqproxy.Base.{
  ℕ, zero, suc, ◌+◌, ◌≤◌, Bool, true, false, not, [], ◌∷◌, Option, none, some, Str, codes, leb,
  ◌==◌, if_cases, length, drop, subst, arith,
}
use pqproxy.Base.Each.{Each, nothing, value, then-Each, Each-itself}
use pqproxy.Scram.{Crypto, Scram, init, client_first}
use pqproxy.Scram.Exchange.{handle_server_first, client_final, verify_server_final}
use pqproxy.Auth.{
  Peer, Login, password_message, includes, c_string, sasl_initial, sasl_response, or_empty, send,
  on_cleartext, on_sasl, on_sasl_cont, on_sasl_final, auth_type, on_auth, on_message, settled,
  Ended, rejected, accepted, rounds, authenticate,
}
use pqproxy.Auth.Password.{outcome}

module _ (crypto : Crypto) (peer : Peer) (user : Str) where
  abbrev Within : ℕ → Login → Type 0
  Within k a = length a.sent ≤ k

  send-Within :
      (m : Str) (a : Login) (k : ℕ)
      → length a.sent ≤ k
      → Each (Within (k + 1)) (send crypto peer user m a)
  unfolding send
  send-Within m a k h =
      if_cases (Each (Within (k + 1))) (peer.writes a.sent m) (λ e. value (omega arith))
        (λ e. nothing)

  on_auth-Within :
      (n : ℕ) (payload : Str) (a : Login) (k : ℕ)
      → length a.sent ≤ k
      → Each (Within (k + 1)) (on_auth crypto peer user n payload a)
  unfolding on_auth on_cleartext on_sasl on_sasl_cont on_sasl_final
  on_auth-Within n payload a k h =
      if_cases P (n == 3)
        (λ e. then-Each _ (Each-itself (password_message a.password)) (λ m e. send-Within m a k h))
        λ e.
          if_cases P (n == 10)
            (λ e.
              if_cases P (not (includes (codes "SCRAM-SHA-256") payload)) (λ e. nothing)
                λ e. then-Each _ (Each-itself (init crypto user)) λ s e.
                  then-Each _ (Each-itself (client_first s 320 288))
                    λ r e. send-Within (sasl_initial (codes "SCRAM-SHA-256") r.0) _ k h)
            λ e.
              if_cases P (n == 11) (λ e. continued a.scram)
                λ e. if_cases P (n == 12) (λ e. final a.scram) (λ e. same)
    where
      P : Option Login → Type 0
      P = Each (Within (k + 1))

      same : P (some a)
      same = value (omega arith)

      continued :
          (o : Option Scram)
          → P (elim o as (λ x. Option Login) [
            | none ↦ some a
            | some s ↦ on_sasl_cont crypto peer user payload s a
          ])
      continued none = same
      continued (some s) =
          if_cases P (leb 512 (length payload)) (λ e. nothing)
            λ e.
              then-Each _
                (Each-itself
                  (handle_server_first crypto (c_string payload) (or_empty a.password) s))
                λ s1 e.
                  then-Each _ (Each-itself (client_final crypto 512 s1))
                    λ r e. send-Within (sasl_response r.0) (record a { scram = some r.1 }) k h

      final :
          (o : Option Scram)
          → P (elim o as (λ x. Option Login) [
            | none ↦ some a
            | some s ↦ on_sasl_final crypto peer user payload s a
          ])
      final none = same
      final (some s) =
          if_cases P (leb 512 (length payload)) (λ e. nothing)
            λ e.
              if_cases P (verify_server_final crypto s (c_string payload)) (λ e. same)
                (λ e. nothing)

  on_message-Within :
      (m : Str) (a : Login) (k : ℕ)
      → length a.sent ≤ k
      → Each (Within (k + 1)) (on_message crypto peer user m a)
  unfolding on_message
  on_message-Within m a k h = go (auth_type m)
    where
      go :
          (o : Option ℕ)
          → Each (Within (k + 1)) (elim o as (λ x. Option Login) [
            | none ↦ some a
            | some n ↦ on_auth crypto peer user n (drop 9 m) a
          ])
      go none = value (omega arith)
      go (some n) = on_auth-Within n (drop 9 m) a k h

  abbrev Sends : ℕ → Ended → Type 0
  Sends k r = length (outcome r).1 ≤ k

  rounds-Sends :
      (n : ℕ) (a : Login) (k : ℕ) → length a.sent ≤ k → Sends (k + n) (rounds crypto peer user n a)
  unfolding rounds
  rounds-Sends zero a k h = omega arith
  rounds-Sends (suc n) a k h =
      go
        (λ a' h'.
          subst (λ j. Sends j (rounds crypto peer user n a')) (omega arith)
            (rounds-Sends n a' (k + 1) h'))
        (peer.reply a.received a.sent)
    where
      settles :
          ((a' : Login) → length a'.sent ≤ k + 1 → Sends (k + suc n) (rounds crypto peer user n a'))
          → (a' : Login) (o : Option Bool) → length a'.sent ≤ k + 1
          → Sends (k + suc n) (elim o as (λ x. Ended) [
            | none ↦ rejected a'.sent
            | some true ↦ accepted a'
            | some false ↦ rounds crypto peer user n a'
          ])
      settles more a' none h' = omega arith
      settles more a' (some true) h' = omega arith
      settles more a' (some false) h' = more a' h'

      answers :
          ((a' : Login) → length a'.sent ≤ k + 1 → Sends (k + suc n) (rounds crypto peer user n a'))
          → (o : Option Login) → Each (Within (k + 1)) o
          → Sends (k + suc n) (elim o as (λ x. Ended) [
            | none ↦ rejected a.sent
            | some a' ↦ elim (settled false (peer.events a'.received)) as (λ x. Ended) [
              | none ↦ rejected a'.sent
              | some true ↦ accepted a'
              | some false ↦ rounds crypto peer user n a'
            ]
          ])
      answers more none nothing = omega arith
      answers more (some a') (value h') =
          settles more a' (settled false (peer.events a'.received)) h'

      go :
          ((a' : Login) → length a'.sent ≤ k + 1 → Sends (k + suc n) (rounds crypto peer user n a'))
          → (o : Option Str)
          → Sends (k + suc n) (elim o as (λ x. Ended) [
            | none ↦ rejected a.sent
            | some m ↦
                elim (on_message crypto peer user m (record a { received = m ∷ a.received }))
                  as (λ x. Ended) [
                    | none ↦ rejected a.sent
                    | some a' ↦ elim (settled false (peer.events a'.received)) as (λ x. Ended) [
                      | none ↦ rejected a'.sent
                      | some true ↦ accepted a'
                      | some false ↦ rounds crypto peer user n a'
                    ]
                  ]
          ])
      go more none = omega arith
      go more (some m) =
          answers more (on_message crypto peer user m (record a { received = m ∷ a.received }))
            (on_message-Within m (record a { received = m ∷ a.received }) k h)

-- Whatever the backend answers, a login sends at most 65 messages before it ends.
pub authenticate-Sends :
    (crypto : Crypto) (peer : Peer) (user : Str) (password : Option Str)
    → length (outcome (authenticate crypto peer user password)).1 ≤ 65
unfolding authenticate
authenticate-Sends crypto peer user password = go peer.startup
  where
    begins :
        (o : Option Login)
        → Each (λ (a : Login). length a.sent ≤ 1) o
        → length
            (outcome (elim o as (λ x. Ended) [
              | none ↦ rejected []
              | some a ↦ rounds crypto peer user 64 a
            ])).1
          ≤ 65
    begins none nothing = omega arith
    begins (some a) (value h) = rounds-Sends crypto peer user 64 a 1 h

    go :
        (o : Option Str)
        → length
            (outcome (elim o as (λ x. Ended) [
              | none ↦ rejected []
              | some m ↦
                  elim (send crypto peer user m
                      (record { scram = none; password = password; sent = []; received = [] }))
                    as (λ x. Ended) [ none ↦ rejected [] | some a ↦ rounds crypto peer user 64 a ]
            ])).1
          ≤ 65
    go none = omega arith
    go (some m) = begins _ (
        send-Within crypto peer user m
          (record { scram = none; password = password; sent = []; received = [] }) 0 (omega arith))
