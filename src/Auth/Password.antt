-- ===== src/Auth/Password.antt =====
-- The password is used only if the backend asks for it.
use pqproxy.Base.{
  ℕ, zero, suc, ◌≡◌, refl, sym, ap, ◌∙◌, Bool, true, false, List, [], ◌∷◌, Option, none, some, Str,
  ◌==◌, if◌then◌else◌, if_cases, if_both, ==_iff, drop,
}
use pqproxy.Scram.{Crypto}
use pqproxy.Auth.{
  Peer, Login, send, on_sasl_cont, on_sasl_final, auth_type, on_auth, on_message, settled, Ended,
  rejected, accepted, rounds, authenticate,
}

-- Whatever it has received, the backend does not ask for the password, or for SCRAM.
abbrev pub NeverAsks : Peer → Type 0
NeverAsks peer =
    (received sent : List Str) (m : Str)
    → peer.reply received sent ≡ some m
    → ¬ (auth_type m ≡ some 3) × ¬ (auth_type m ≡ some 10)

-- What was sent, and whether the login was accepted.
abbrev pub outcome : Ended → Bool × List Str
outcome (rejected sent) = (false, sent)
outcome (accepted a) = (true, a.sent)

module _ (crypto : Crypto) (peer : Peer) (user : Str) where
  on_auth-idle :
      (n : ℕ) (payload : Str) (a : Login)
      → ¬ (n ≡ 3)
      → ¬ (n ≡ 10)
      → a.scram ≡ none
      → on_auth crypto peer user n payload a ≡ some a
  unfolding on_auth
  on_auth-idle n payload a not3 not10 idle =
      let Idle : Option Login → Type 0 = (λ r. r ≡ some a) in
      if_cases Idle (n == 3) (λ e. absurd (not3 ((==_iff n 3).0 e)))
        λ e.
          if_cases Idle (n == 10) (λ e. absurd (not10 ((==_iff n 10).0 e)))
            λ e.
              if_cases Idle (n == 11)
                (λ e.
                  ap
                    (λ o. elim o as (λ x. Option Login) [
                      | none ↦ some a
                      | some s ↦ on_sasl_cont crypto peer user payload s a
                    ])
                    idle)
                λ e.
                  if_cases Idle (n == 12)
                    (λ e.
                      ap
                        (λ o. elim o as (λ x. Option Login) [
                          | none ↦ some a
                          | some s ↦ on_sasl_final crypto peer user payload s a
                        ])
                        idle)
                    (λ e. refl)

  on_message-idle :
      (m : Str) (a : Login)
      → ¬ (auth_type m ≡ some 3)
      → ¬ (auth_type m ≡ some 10)
      → a.scram ≡ none
      → on_message crypto peer user m a ≡ some a
  unfolding on_message
  on_message-idle m a not3 not10 idle = go (auth_type m) not3 not10
    where
      go :
          (o : Option ℕ)
          → ¬ (o ≡ some 3)
          → ¬ (o ≡ some 10)
          → elim o as (λ x. Option Login) [
            | none ↦ some a
            | some n ↦ on_auth crypto peer user n (drop 9 m) a
          ]
            ≡ some a
      go none h k = refl
      go (some n) h k = on_auth-idle n (drop 9 m) a (λ e. h (ap some e)) (λ e. k (ap some e)) idle

  abbrev plain_login : Option Str → List Str → List Str → Login
  plain_login password sent received = record {
    scram = none;
    password = password;
    sent = sent;
    received = received;
  }

  -- The parts of a round.
  abbrev settle : ℕ → Login → Option Bool → Ended
  settle n a o = elim o as (λ x. Ended) [
    | none ↦ rejected a.sent
    | some true ↦ accepted a
    | some false ↦ rounds crypto peer user n a
  ]

  abbrev answered : ℕ → List Str → Option Login → Ended
  answered n sent o = elim o as (λ x. Ended) [
    | none ↦ rejected sent
    | some a ↦ settle n a (settled false (peer.events a.received))
  ]

  abbrev turn : ℕ → Option Str → List Str → List Str → Option Str → Ended
  turn n password sent received o = elim o as (λ x. Ended) [
    | none ↦ rejected sent
    | some m ↦
        answered n sent (on_message crypto peer user m (plain_login password sent (m ∷ received)))
  ]

  module _ (never : NeverAsks peer) (p q : Option Str) where
    abbrev Same : ℕ → List Str → List Str → Type 0
    Same n sent received =
        outcome (rounds crypto peer user n (plain_login p sent received))
        ≡ outcome (rounds crypto peer user n (plain_login q sent received))

    settle-Same :
        (n : ℕ) (sent received : List Str) (o : Option Bool)
        → Same n sent received
        → outcome (settle n (plain_login p sent received) o)
          ≡ outcome (settle n (plain_login q sent received) o)
    settle-Same n sent received none e = refl
    settle-Same n sent received (some true) e = refl
    settle-Same n sent received (some false) e = e

    turn-Same :
        (n : ℕ) (sent received : List Str)
        → ((m : Str) → Same n sent (m ∷ received))
        → (o : Option Str) → peer.reply received sent ≡ o
        → outcome (turn n p sent received o) ≡ outcome (turn n q sent received o)
    turn-Same n sent received more none e = refl
    turn-Same n sent received more (some m) e =
        let (not3, not10) = never received sent m e in
        ap (λ o. outcome (answered n sent o))
          (on_message-idle m (plain_login p sent (m ∷ received)) not3 not10 refl)
        ∙ settle-Same n sent (m ∷ received) (settled false (peer.events (m ∷ received))) (more m)
        ∙ sym (
            ap (λ o. outcome (answered n sent o))
              (on_message-idle m (plain_login q sent (m ∷ received)) not3 not10 refl))

    rounds-Same : (n : ℕ) (sent received : List Str) → Same n sent received
    unfolding rounds
    rounds-Same zero sent received = refl
    rounds-Same (suc n) sent received =
        turn-Same n sent received (λ m. rounds-Same n sent (m ∷ received))
          (peer.reply received sent) refl

    abbrev begun : Option Login → Ended
    begun o = elim o as (λ x. Ended) [ none ↦ rejected [] | some a ↦ rounds crypto peer user 64 a ]

    abbrev started : Option Str → Str → Option Login
    started password m = if peer.writes [] m then some (plain_login password (m ∷ []) []) else none

    started-same :
        (o : Option Str)
        → outcome (elim o as (λ x. Ended) [ none ↦ rejected [] | some m ↦ begun (started p m) ])
          ≡ outcome (elim o as (λ x. Ended) [ none ↦ rejected [] | some m ↦ begun (started q m) ])
    started-same none = refl
    started-same (some m) =
        if_both (λ (x y : Option Login). outcome (begun x) ≡ outcome (begun y)) (peer.writes [] m)
          (λ e. rounds-Same 64 (m ∷ []) []) (λ e. refl)

-- If a backend never sends an authentication request of type 3 or 10, then for any two passwords
-- the login sends the same messages and ends the same way.
pub authenticate-password :
    (crypto : Crypto) (peer : Peer) (user : Str) (p q : Option Str)
    → NeverAsks peer
    → outcome (authenticate crypto peer user p) ≡ outcome (authenticate crypto peer user q)
unfolding authenticate send
authenticate-password crypto peer user p q never =
    started-same crypto peer user never p q peer.startup
