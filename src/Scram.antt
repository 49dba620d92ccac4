-- ===== src/Scram.antt =====
-- src/scram_client.c: the client's side of SCRAM-SHA-256. OpenSSL is a parameter. A call that fails
-- leaves a state that the callers drop, so it gives none.
pub mod Exchange
pub mod Users
pub mod Fields
pub mod Accepted
pub mod Server
pub mod Keyed
pub mod Mutual
use pqproxy.Base.{
  ℕ, zero, suc, ◌+◌, ◌-◌, ◌*◌, ◌/◌, ◌%◌, ◌^◌, min, Bool, true, false, ◌&&◌, ◌||◌, not, List, [],
  ◌∷◌, ◌++◌, Option, none, some, map, Str, codes, strncpy, ltb, leb, ◌==◌, if◌then◌else◌, length,
  get_or, take, replicate,
}
use pqproxy.Base.Atoi.{digits, is_digit}
use pqproxy.Base.Bits.{xor_bytes, difference}

-- RAND_bytes, HMAC, PKCS5_PBKDF2_HMAC, EVP_Digest, EVP_EncodeBlock and EVP_DecodeBlock, the digests
-- with SHA-256; none for a failure.
pub record Crypto : Type 0 where
  pub rand_bytes : ℕ → Option Str
  pub hmac : Str → Str → Option Str
  pub pbkdf2 : Str → Str → ℕ → Option Str
  pub digest : Str → Option Str
  pub encode_block : Str → Str
  pub decode_block : Str → Option Str

-- pq_scram_t
pub record Scram : Type 0 where
  pub username : Str
  pub client_nonce : Str
  pub server_nonce : Str
  pub salt : Str
  pub iterations : ℕ
  pub salted_password : Str
  pub client_key : Str
  pub stored_key : Str
  pub server_key : Str
  pub client_first_bare : Str
  pub auth_message : Str
  pub step : ℕ

unfoldable pub b64_encode : Crypto → Str → ℕ → Option Str
b64_encode crypto bytes out_cap =
    let out = crypto.encode_block bytes in if leb out_cap (length out) then none else some out

-- The number of `=` among the last two bytes.
abbrev pub padding : Str → ℕ
padding s =
    (if get_or s (length s - 1) 0 == b'=' then 1 else 0)
    + (if leb 2 (length s) && get_or s (length s - 2) 0 == b'=' then 1 else 0)

-- What b64_decode keeps of the decoded block, without the padding.
unfoldable pub unpadded : ℕ → ℕ → Str → Option Str
unpadded out_cap pad tmp =
    if ltb (length tmp) pad || ltb out_cap (length tmp - pad)
    then none
    else some (take (length tmp - pad) tmp)

unfoldable pub b64_decode : Crypto → Str → ℕ → Option Str
unfolding unpadded
b64_decode crypto s out_cap =
    if length s == 0 || not (length s % 4 == 0) || ltb 256 (length s / 4 * 3 + 3)
    then none
    else elim (crypto.decode_block s) [ none ↦ none | some tmp ↦ unpadded out_cap (padding s) tmp ]

-- The HMAC, if it has 32 bytes.
unfoldable pub hmac_sha256 : Crypto → Str → Str → Option Str
hmac_sha256 crypto key text = elim (crypto.hmac key text) [
  | none ↦ none
  | some out ↦ if length out == 32 then some out else none
]

abbrev pub hex : Str
hex = codes "0123456789abcdefghijklmnopqrstuvwxyz"

-- 0, 1, 2 and so on.
unfoldable pub counting : ℕ → ℕ → Str
counting i zero = []
counting i (suc n) = i ∷ counting (i + 1) n

unfoldable pub nonce_hex : Crypto → ℕ → Str
unfolding counting
nonce_hex crypto nchars =
    let n = min nchars 24 in
    let raw : Str = elim (crypto.rand_bytes n) [ none ↦ counting 0 n | some raw ↦ take n raw ] in
    map (λ c. get_or hex (c % 36) 0) raw

-- What a byte of the user's name is written as.
abbrev pub escape : ℕ → Str
escape c = if c == b'=' then codes "=3D" else if c == b',' then codes "=2C" else c ∷ []

-- A byte that copy_user refuses, or has no room for, after `j` bytes.
abbrev pub no_copy : ℕ → ℕ → ℕ → Bool
no_copy dstsz j c = ltb c 32 || c == 127 || ((c == b'=' || c == b',') && leb dstsz (j + 3))

-- The loop of copy_user, with `dst` written so far.
unfoldable pub copy_from : ℕ → Str → Str → Option Str
copy_from dstsz dst [] = some dst
copy_from dstsz dst (c ∷ s) = elim (leb dstsz (length dst + 1)) [
  | true ↦ some dst
  | false ↦ elim (no_copy dstsz (length dst) c) [
    | true ↦ none
    | false ↦ copy_from dstsz (dst ++ escape c) s
  ]
]

-- copy_user
unfoldable pub copy_user : ℕ → Str → Option Str
unfolding copy_from
copy_user dstsz [] = none
copy_user dstsz (c ∷ user) = if dstsz == 0 then none else copy_from dstsz [] (c ∷ user)

-- pq_scram_init
unfoldable pub init : Crypto → Str → Option Scram
unfolding copy_user nonce_hex
init crypto user = elim (copy_user 128 user) [
  | none ↦ none
  | some name ↦ some (record {
    username = name;
    client_nonce = nonce_hex crypto 24;
    server_nonce = [];
    salt = [];
    iterations = 0;
    salted_password = replicate 32 0;
    client_key = replicate 32 0;
    stored_key = replicate 32 0;
    server_key = replicate 32 0;
    client_first_bare = [];
    auth_message = [];
    step = 0;
  })
]

-- pq_scram_client_first: the GS2 form, the bare form and the state.
unfoldable pub client_first : Scram → ℕ → ℕ → Option (Str × Str × Scram)
client_first s gs2_cap bare_cap =
    let bare = codes "n=" ++ s.username ++ codes ",r=" ++ s.client_nonce in
    let gs2 = codes "n,," ++ bare in
    if leb bare_cap (length bare) || leb gs2_cap (length gs2)
    then none
    else some (gs2, bare, record s { client_first_bare = strncpy 255 bare; step = 1 })
