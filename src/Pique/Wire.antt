-- ===== src/Pique/Wire.antt =====
-- A pqwire context as the calls made on it so far, newest first, each with whether it returned 0.
-- A context's answers are a function of those calls, so nothing is lost by this view.
use pqproxy.Base.{ℕ, ◌≡◌, Bool, List, [], ◌∷◌, Option, none, some, ℤ, Str, set, if◌then◌else◌}

-- pq_bind_param_view_t and pqwire_param_t: the format, and the bytes unless the value is NULL.
pub record Param : Type 0 where
  pub format : ℤ
  pub value : Option Str

-- pq_bind_t, its arrays as far as they are used: `n_params` is the number of `params`.
pub record Bind : Type 0 where
  pub portal : Str
  pub statement : Str
  pub params : List Param
  pub result_formats : List ℤ

-- The functions of pqwire that queue a message, with what they are given.
pub data Call : Type 0 where
  send_parse : Str → Str → List ℕ → ℕ → Call
  -- pqwire_send_bind_rewrite_identity (ctx, bind, portal, statement, slot, value, format)
  send_bind_rewrite_identity : Bind → Str → Str → ℕ → Str → ℤ → Call
  -- pqwire_send_bind (ctx, portal, statement, the parameters, the result formats)
  send_bind : Str → Str → List Param → List ℤ → Call
  send_execute : Str → ℕ → Call
  send_sync send_parse_complete send_bind_complete send_ready_for_query send_auth_ok : Call
  send_query send_command_complete : Str → Call
  send_error_response : Str → Str → Str → Call

abbrev pub Wire : Type 0
Wire = List (Call × Bool)

-- `answer w call`: whether the call returns 0 on a context with the history `w`.
-- `inject bind slot value format`: pqwire_bind_inject_identity, the parameters if it returned 0.
pub record WireApi : Type 0 where
  pub answer : Wire → Call → Bool
  pub inject : Bind → ℕ → Str → ℤ → Option (List Param)

-- A text parameter with this value.
abbrev pub text_param : Str → ℤ → Param
text_param value format = record { format = format; value = some value }

-- The owned copy of the parameters has the value in the slot, and the client's values elsewhere.
pub record WireLaws (api : WireApi) : Type 0 where
  pub injects :
      (bind : Bind) (slot : ℕ) (value : Str) (format : ℤ) (params : List Param)
      → api.inject bind slot value format ≡ some params
      → params ≡ set bind.params slot (text_param value format)

-- Making a call.
abbrev pub call : WireApi → Wire → Call → Bool × Wire
call api w c = (api.answer w c, (c, api.answer w c) ∷ w)

-- The calls that returned 0, newest first: the messages that the context queued.
unfoldable pub sent : Wire → List Call
sent [] = []
sent ((c, done) ∷ w) = if done then c ∷ sent w else sent w

-- The Bind message of a call: portal, statement and parameters.
abbrev pub bound : Call → Option (Str × Str × List Param)
bound (send_bind portal stmt params formats) = some (portal, stmt, params)
bound (send_bind_rewrite_identity bind portal stmt slot value format) =
    some (portal, stmt, set bind.params slot (text_param value format))
bound _ = none
