-- ===== src/Scram/Exchange.antt =====
-- src/scram_client.c, the server's messages and what the client makes of them.
use pqproxy.Base.{
  ℕ, zero, suc, ◌%◌, ◌^◌, Bool, true, false, ◌&&◌, ◌||◌, not, [], ◌∷◌, ◌++◌, Option, none, some,
  Str, codes, leb, ◌==◌, if◌then◌else◌, length,
}
use pqproxy.Base.Atoi.{digits, is_digit}
use pqproxy.Base.Bits.{xor_bytes, difference}
use pqproxy.Scram.{Crypto, Scram, b64_encode, b64_decode, hmac_sha256}

-- The text after the first `ab`, that is, after `strstr (text, "ab") + 2`.
unfoldable pub after_pair : ℕ → ℕ → Str → Option Str
after_pair a b [] = none
after_pair a b (x ∷ []) = none
after_pair a b (x ∷ y ∷ s) =
    let rest = after_pair a b (y ∷ s) in if x == a && y == b then some s else rest

-- The bytes before a comma, `n` at most.
unfoldable pub field : ℕ → Str → Str
field zero s = []
field (suc n) [] = []
field (suc n) (c ∷ s) = let rest = field n s in if c == b',' then [] else c ∷ rest

-- The leading digits, `n` at most.
unfoldable pub digits_field : ℕ → Str → Str
digits_field zero s = []
digits_field (suc n) [] = []
digits_field (suc n) (c ∷ s) = let rest = digits_field n s in if is_digit c then c ∷ rest else []

-- `strncmp (text, prefix, strlen (prefix)) == 0`
unfoldable pub has_prefix : Str → Str → Bool
has_prefix [] text = true
has_prefix (a ∷ prefix) [] = false
has_prefix (a ∷ prefix) (b ∷ text) = a == b && has_prefix prefix text

unfoldable pub read_field : ℕ → ℕ → ℕ → Str → Option Str
unfolding after_pair field
read_field a b n text = elim (after_pair a b text) [ none ↦ none | some p ↦ some (field n p) ]

-- The keys from the salted password.
unfoldable pub derive_keys : Crypto → Str → Scram → Option Scram
unfolding hmac_sha256
derive_keys crypto salted s = elim (hmac_sha256 crypto salted (codes "Client Key")) [
  | none ↦ none
  | some client_key ↦ elim (crypto.digest client_key) [
    | none ↦ none
    | some stored_key ↦ elim (hmac_sha256 crypto salted (codes "Server Key")) [
      | none ↦ none
      | some server_key ↦ some (record s {
        salted_password = salted;
        client_key = client_key;
        stored_key = stored_key;
        server_key = server_key;
      })
    ]
  ]
]

-- What the client's last message has before the proof, and AuthMessage.
abbrev pub without_proof : Scram → Str
without_proof s = codes "c=biws,r=" ++ s.server_nonce

unfoldable pub set_auth_message : Str → Scram → Option Scram
set_auth_message server_first s =
    let auth = s.client_first_bare ++ codes "," ++ server_first ++ codes "," ++ without_proof s in
    if leb 160 (length (without_proof s)) || leb 768 (length auth)
    then none
    else some (record s { auth_message = auth })

-- The rest of pq_scram_handle_server_first, with the digits of `i=`.
unfoldable pub salted : Crypto → Str → Str → Str → Scram → Option Scram
unfolding derive_keys set_auth_message
salted crypto password server_first iter s =
    let iterations = (digits 0 iter).0 % 2 ^ 32 in
    elim (crypto.pbkdf2 password s.salt iterations) [
      | none ↦ none
      | some key ↦ elim (derive_keys crypto key (record s { iterations = iterations })) [
        | none ↦ none
        | some s' ↦ set_auth_message server_first s'
      ]
    ]

-- pq_scram_handle_server_first
unfoldable pub handle_server_first : Crypto → Str → Str → Scram → Option Scram
unfolding read_field has_prefix b64_decode salted digits_field
handle_server_first crypto server_first password s = elim (read_field b'r' b'=' 127 server_first) [
  | none ↦ none
  | some nonce ↦
      if not (has_prefix s.client_nonce nonce)
      then none
      else elim (read_field b's' b'=' 127 server_first) [
        | none ↦ none
        | some salt_b64 ↦ elim (b64_decode crypto salt_b64 64) [
          | none ↦ none
          | some salt ↦ elim (after_pair b'i' b'=' server_first) [
            | none ↦ none
            | some p ↦
                salted crypto password server_first (digits_field 15 p)
                  (record s { server_nonce = nonce; salt = salt })
          ]
        ]
      ]
]

-- The proof: the client's key, masked by the client's signature.
unfoldable pub client_proof : Crypto → Scram → Option Str
client_proof crypto s = elim (hmac_sha256 crypto s.stored_key s.auth_message) [
  | none ↦ none
  | some client_sig ↦ some (xor_bytes s.client_key client_sig)
]

-- pq_scram_client_final: the message and the state.
unfoldable pub client_final : Crypto → ℕ → Scram → Option (Str × Scram)
unfolding client_proof b64_encode
client_final crypto out_cap s = elim (client_proof crypto s) [
  | none ↦ none
  | some proof ↦ elim (b64_encode crypto proof 64) [
    | none ↦ none
    | some proof_b64 ↦
        let out = without_proof s ++ codes ",p=" ++ proof_b64 in
        if leb out_cap (length out) then none else some (out, record s { step = 2 })
  ]
]

-- The signature that the server's last message brings.
unfoldable pub server_value : Crypto → Str → Option Str
unfolding read_field b64_decode
server_value crypto server_final = elim (read_field b'v' b'=' 127 server_final) [
  | none ↦ none
  | some v_b64 ↦ b64_decode crypto v_b64 32
]

-- The last comparison of pq_scram_verify_server_final.
unfoldable pub same_signature : Str → Str → Bool
same_signature expected got = length got == 32 && difference 0 expected got == 0

-- pq_scram_verify_server_final: true for 0.
unfoldable pub verify_server_final : Crypto → Scram → Str → Bool
unfolding hmac_sha256 server_value same_signature
verify_server_final crypto s server_final = elim (hmac_sha256 crypto s.server_key s.auth_message) [
  | none ↦ false
  | some expected ↦ elim (server_value crypto server_final) [
    | none ↦ false
    | some got ↦ same_signature expected got
  ]
]
