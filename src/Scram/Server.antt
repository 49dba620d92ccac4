-- ===== src/Scram/Server.antt =====
-- The server's side of SCRAM-SHA-256, as RFC 5802 has it: the account of a user, the server's first
-- message, and when a server accepts the client's last one.
use pqproxy.Base.{ℕ, ◌≤◌, ◌<◌, ◌^◌, ◌≡◌, false, [], ◌∷◌, ◌++◌, some, Str, codes, length}
use pqproxy.Base.Atoi.{digits}
use pqproxy.Base.Bits.{xor_bytes}
use pqproxy.Base.Members.{contains}
use pqproxy.Scram.{Crypto}
use pqproxy.Scram.Fields.{NoPair, AllDigits}

-- The digests are functions, HMAC gives 32 bytes, and 32 bytes are encoded in 44.
pub record Digests (crypto : Crypto) : Type 0 where
  pub mac : Str → Str → Str
  pub hash : Str → Str
  pub stretch : Str → Str → ℕ → Str
  pub macs : (key text : Str) → crypto.hmac key text ≡ some (mac key text)
  pub mac_size : (key text : Str) → length (mac key text) ≡ 32
  pub hashes : (text : Str) → crypto.digest text ≡ some (hash text)
  pub stretches :
      (password salt : Str) (n : ℕ) → crypto.pbkdf2 password salt n ≡ some (stretch password salt n)
  pub encodes : (bytes : Str) → length bytes ≡ 32 → length (crypto.encode_block bytes) ≡ 44

-- What a server keeps of a user. The salt has 16 bytes; in base64 it is `salt_code` and two `=`.
pub record Account : Type 0 where
  pub salt : Str
  pub salt_code : Str
  pub iterations : ℕ
  pub rounds : Str
  pub stored_key : Str
  pub server_key : Str

abbrev pub salt_text : Account → Str
salt_text a = a.salt_code ++ codes "=="

module _ {crypto : Crypto} (d : Digests crypto) where
  -- The account of a user with the password. The salt's text is one of base64: it has no comma, and
  -- `i` is not its last letter.
  pub record IsAccount (password : Str) (a : Account) : Type 0 where
    pub stored :
        a.stored_key ≡ d.hash (d.mac (d.stretch password a.salt a.iterations) (codes "Client Key"))
    pub server : a.server_key ≡ d.mac (d.stretch password a.salt a.iterations) (codes "Server Key")
    pub salt_size : length a.salt ≡ 16
    pub code_size : length a.salt_code ≡ 22
    pub decodes : crypto.decode_block (salt_text a) ≡ some (a.salt ++ 0 ∷ 0 ∷ [])
    pub no_comma : contains b',' (salt_text a) ≡ false
    pub no_i : NoPair b'i' b'=' (salt_text a)
    pub counted : (digits 0 a.rounds).0 ≡ a.iterations
    pub fits : a.iterations < 2 ^ 32
    pub decimal : AllDigits a.rounds
    pub short : length a.rounds ≤ 15

  -- The server's first message, and what both sides sign; `bare` is the client's first message.
  abbrev pub first_text : Account → Str → Str
  first_text a nonce =
      codes "r=" ++ (nonce ++ (codes ",s=" ++ (salt_text a ++ (codes ",i=" ++ a.rounds))))

  abbrev pub signed_text : Account → Str → Str → Str
  signed_text a bare nonce =
      bare ++ codes "," ++ first_text a nonce ++ codes "," ++ (codes "c=biws,r=" ++ nonce)

  -- A server accepts the client's last message: it repeats the nonce and brings a proof that,
  -- unmasked by the signature under the stored key, is a preimage of the stored key.
  pub record Accepts (a : Account) (bare nonce out : Str) : Type 0 where
    pub proof : Str
    pub is : out ≡ codes "c=biws,r=" ++ nonce ++ codes ",p=" ++ crypto.encode_block proof
    pub proves :
        d.hash (xor_bytes proof (d.mac a.stored_key (signed_text a bare nonce))) ≡ a.stored_key
