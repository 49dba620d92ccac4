-- ===== src/Examples/Dialogues.antt =====
-- A login that the backend trusts, and a message in pieces.
use pqproxy.Base.{
  ◌≤◌, ◌≡◌, ◌++◌, refl, subst, true, List, [], ◌∷◌, none, some, Str, codes, length, arith,
}
use pqproxy.Auth.{
  ready, Peer, send, on_message, on_auth, settled, auth_type, rounds, authenticate, sasl_initial,
  sasl_response, password_message,
}
use pqproxy.Auth.Socket.{Call, interrupted, moves, done, read_msg}
use pqproxy.Auth.Frames.{IsFramed, read_msg-whole, login-IsFramed}
use pqproxy.Auth.Password.{NeverAsks, outcome, authenticate-password}
use pqproxy.Auth.Bounded.{authenticate-Sends}
use pqproxy.Examples.Sasl.{toy}

abbrev ok_message : Str
ok_message = b'R' ∷ 0 ∷ 0 ∷ 0 ∷ 8 ∷ 0 ∷ 0 ∷ 0 ∷ 0 ∷ []

abbrev trusting : Peer
trusting = record {
  startup = some (codes "startup");
  reply = λ received sent. some ok_message;
  writes = λ sent m. true;
  events = λ received. ready ∷ [];
}

trusting-NeverAsks : NeverAsks trusting
trusting-NeverAsks received sent m e =
    let same : ok_message ≡ m = cc in
    subst (λ m. ¬ (auth_type m ≡ some 3) × ¬ (auth_type m ≡ some 10)) same (λ k. cc, λ k. cc)

trusted : outcome (authenticate toy trusting (codes "alice") none) ≡ (true, codes "startup" ∷ [])
unfolding authenticate send rounds on_message on_auth settled
trusted = refl

authenticate-password_example :
    outcome (authenticate toy trusting (codes "alice") none)
    ≡ outcome (authenticate toy trusting (codes "alice") (some (codes "secret")))
authenticate-password_example =
    authenticate-password toy trusting (codes "alice") none (some (codes "secret"))
      trusting-NeverAsks

authenticate-Sends_example :
    length (outcome (authenticate toy trusting (codes "alice") none)).1 ≤ 65
authenticate-Sends_example = authenticate-Sends toy trusting (codes "alice") none

abbrev slow : List Call
slow =
    moves 0
    ∷ interrupted
    ∷ moves 0
    ∷ moves 0
    ∷ moves 0
    ∷ moves 0
    ∷ interrupted
    ∷ moves 0
    ∷ moves 0
    ∷ moves 2
    ∷ moves 0
    ∷ moves 0
    ∷ []

read_msg-whole_example :
    (calls : List Call) × (read_msg slow (ok_message ++ codes "Z") 8192
      ≡ done ok_message calls (codes "Z"))
read_msg-whole_example =
    read_msg-whole slow ok_message (codes "Z") 8192 (omega arith, omega arith, refl) (omega arith)
      tt (omega arith)

abbrev secret_message : Str
secret_message = b'p' ∷ 0 ∷ 0 ∷ 0 ∷ 7 ∷ codes "pw" ++ 0 ∷ []

secret_message-made : password_message (some (codes "pw")) ≡ some secret_message
unfolding password_message
secret_message-made = refl

login-IsFramed_example :
    IsFramed (sasl_initial (codes "SCRAM-SHA-256") (codes "n,,n=a,r=b"))
    × IsFramed (sasl_response (codes "n,,n=a,r=b"))
    × IsFramed secret_message
    × (length secret_message ≤ 512)
login-IsFramed_example =
    login-IsFramed (codes "SCRAM-SHA-256") (codes "n,,n=a,r=b") (some (codes "pw")) secret_message
      (omega arith) secret_message-made
