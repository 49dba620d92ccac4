-- ===== src/Auth.antt =====
-- src/backend_pool.c, the login at a backend: the framing of its messages, and backend_authenticate.
-- OpenSSL, pique and the server are parameters.
pub mod Socket
pub mod Frames
pub mod Password
pub mod Bounded
use pqproxy.Base.{
  ℕ, zero, suc, ◌+◌, ◌-◌, ◌*◌, ◌/◌, ◌%◌, ◌^◌, Bool, true, false, ◌&&◌, ◌||◌, not, List, [], ◌∷◌,
  ◌++◌, Option, none, some, Str, codes, ltb, leb, ◌==◌, if◌then◌else◌, length, get_or, take, drop,
}
use pqproxy.Scram.{Crypto, Scram, init, client_first}
use pqproxy.Scram.Exchange.{has_prefix, handle_server_first, client_final, verify_server_final}

-- put_be32
abbrev pub put_be32 : ℕ → Str
put_be32 v = v / 2 ^ 24 % 256 ∷ v / 2 ^ 16 % 256 ∷ v / 2 ^ 8 % 256 ∷ v % 256 ∷ []

-- The message that send_sasl_initial writes.
abbrev pub sasl_initial : Str → Str → Str
sasl_initial mech text =
    b'p' ∷ put_be32 (4 + (length mech + 1 + 4 + length text))
    ++ mech
    ++ 0 ∷ put_be32 (length text)
    ++ text

-- The message that send_sasl_response writes.
abbrev pub sasl_response : Str → Str
sasl_response text = b'p' ∷ put_be32 (4 + length text) ++ text

-- The answer to a request for the password: none if it is too long.
unfoldable pub password_message : Option Str → Option Str
password_message password =
    let text : Str = elim password [ none ↦ [] | some s ↦ s ] in
    if ltb 512 (5 + (length text + 1))
    then none
    else some (b'p' ∷ put_be32 (4 + (length text + 1)) ++ text ++ 0 ∷ [])

-- The bytes before a terminator.
unfoldable pub c_string : Str → Str
c_string [] = []
c_string (c ∷ s) = let rest = c_string s in if c == 0 then [] else c ∷ rest

-- memmem
unfoldable pub includes : Str → Str → Bool
unfolding has_prefix
includes pattern [] = has_prefix pattern []
includes pattern (c ∷ s) = has_prefix pattern (c ∷ s) || includes pattern s

-- What an event of pique means for the login.
pub data Event : Type 0 where
  ready error_response other : Event

-- What the backend and pique answer: the startup message, if there is one; the next message, from
-- those received and sent before; whether a message can be written after those sent before; and the
-- events after a message, from those received.
pub record Peer : Type 0 where
  pub startup : Option Str
  pub reply : List Str → List Str → Option Str
  pub writes : List Str → Str → Bool
  pub events : List Str → List Event

-- The variables of backend_authenticate, and the messages sent and received, the last one first.
pub record Login : Type 0 where
  pub scram : Option Scram
  pub password : Option Str
  pub sent : List Str
  pub received : List Str

abbrev pub or_empty : Option Str → Str
or_empty none = []
or_empty (some s) = s

-- The bytes 5 to 8 of an authentication request.
abbrev pub auth_type : Str → Option ℕ
auth_type m =
    if leb 9 (length m) && get_or m 0 0 == b'R'
    then some (get_or m 5 0 * 2 ^ 24 + get_or m 6 0 * 2 ^ 16 + get_or m 7 0 * 2 ^ 8 + get_or m 8 0)
    else none

-- Whether an event says that the backend is ready; none after an error.
unfoldable pub settled : Bool → List Event → Option Bool
settled rfq [] = some rfq
settled rfq (ready ∷ events) = settled true events
settled rfq (error_response ∷ events) = none
settled rfq (other ∷ events) = settled rfq events

-- How the loop ends: in failure with all that was sent, or with the variables.
pub data Ended : Type 0 where
  rejected : List Str → Ended
  accepted : Login → Ended

module _ (crypto : Crypto) (peer : Peer) (user : Str) where
  -- write_all
  unfoldable pub send : Str → Login → Option Login
  send m a = if peer.writes a.sent m then some (record a { sent = m ∷ a.sent }) else none

  unfoldable pub on_cleartext : Login → Option Login
  unfolding send password_message
  on_cleartext a = elim (password_message a.password) [ none ↦ none | some m ↦ send m a ]

  unfoldable pub on_sasl : Str → Login → Option Login
  unfolding send includes
  on_sasl payload a =
      if not (includes (codes "SCRAM-SHA-256") payload) then none else elim (init crypto user) [
        | none ↦ none
        | some s ↦ elim (client_first s 320 288) [
          | none ↦ none
          | some (gs2, bare, s') ↦
              send (sasl_initial (codes "SCRAM-SHA-256") gs2)
                (record a { scram = some s'; password = some (or_empty a.password) })
        ]
      ]

  unfoldable pub on_sasl_cont : Str → Scram → Login → Option Login
  unfolding send c_string
  on_sasl_cont payload s a =
      if leb 512 (length payload)
      then none
      else elim (handle_server_first crypto (c_string payload) (or_empty a.password) s) [
        | none ↦ none
        | some s1 ↦ elim (client_final crypto 512 s1) [
          | none ↦ none
          | some (final, s2) ↦ send (sasl_response final) (record a { scram = some s2 })
        ]
      ]

  unfoldable pub on_sasl_final : Str → Scram → Login → Option Login
  on_sasl_final payload s a =
      if leb 512 (length payload)
      then none
      else if verify_server_final crypto s (c_string payload)
      then some a
      else none

  -- The branches on the type; one that is not known changes nothing.
  unfoldable pub on_auth : ℕ → Str → Login → Option Login
  unfolding on_cleartext on_sasl on_sasl_cont on_sasl_final
  on_auth n payload a =
      if n == 3
      then on_cleartext a
      else if n == 10
      then on_sasl payload a
      else if n == 11
      then (elim a.scram [ none ↦ some a | some s ↦ on_sasl_cont payload s a ])
      else if n == 12
      then (elim a.scram [ none ↦ some a | some s ↦ on_sasl_final payload s a ])
      else some a

  unfoldable pub on_message : Str → Login → Option Login
  unfolding on_auth
  on_message m a = elim (auth_type m) [ none ↦ some a | some n ↦ on_auth n (drop 9 m) a ]

  -- The loop, for `n` rounds.
  unfoldable pub rounds : ℕ → Login → Ended
  unfolding on_message settled
  rounds zero a = rejected a.sent
  rounds (suc n) a = elim (peer.reply a.received a.sent) [
    | none ↦ rejected a.sent
    | some m ↦ elim (on_message m (record a { received = m ∷ a.received })) [
      | none ↦ rejected a.sent
      | some a' ↦ elim (settled false (peer.events a'.received)) [
        | none ↦ rejected a'.sent
        | some true ↦ accepted a'
        | some false ↦ rounds n a'
      ]
    ]
  ]

  -- backend_authenticate
  unfoldable pub authenticate : Option Str → Ended
  unfolding send rounds
  authenticate password = elim peer.startup [
    | none ↦ rejected []
    | some m ↦
        elim (send m (record { scram = none; password = password; sent = []; received = [] })) [
          | none ↦ rejected []
          | some a ↦ rounds 64 a
        ]
  ]
