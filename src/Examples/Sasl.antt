-- ===== src/Examples/Sasl.antt =====
-- A login by SCRAM with digests that are constants.
use pqproxy.Base.{
  ◌≡◌, ◌≤◌, ◌<◌, ◌↔◌, refl, true, false, [], ◌++◌, ◌∷◌, none, some, Str, codes, get_or, length,
  replicate,
}
use pqproxy.Base.Atoi.{digits}
use pqproxy.Base.Bits.{xor_bytes}
use pqproxy.Base.Members.{contains}
use pqproxy.Scram.{
  Crypto, Scram, b64_encode, b64_decode, unpadded, hmac_sha256, copy_from, copy_user,
}
use pqproxy.Scram.Exchange.{
  after_pair, field, digits_field, has_prefix, read_field, derive_keys, set_auth_message, salted,
  handle_server_first, client_proof, client_final, server_value, verify_server_final,
}
use pqproxy.Scram.Users.{in_text, unescape, copy_user-unescape, copy_user-OneField}
use pqproxy.Scram.Server.{Digests, Account}
use pqproxy.Scram.Accepted.{own_signature, verify_server_final-signature}

abbrev pub toy : Crypto
toy = record {
  rand_bytes = λ n. none;
  hmac = λ key text. some (replicate 32 7);
  pbkdf2 = λ password salt n. some (replicate 32 5);
  digest = λ text. some (replicate 32 9);
  encode_block = λ bytes. codes "cHJv";
  decode_block = λ text. some (codes "pro");
}

abbrev started : Scram
started = record {
  username = codes "alice";
  client_nonce = codes "abc";
  server_nonce = [];
  salt = [];
  iterations = 0;
  salted_password = [];
  client_key = [];
  stored_key = [];
  server_key = [];
  client_first_bare = codes "n=alice,r=abc";
  auth_message = [];
  step = 1;
}

abbrev server_first : Str
server_first = codes "r=abcdef,s=QUJD,i=4096"

abbrev keyed : Scram
keyed = record started {
  server_nonce = codes "abcdef";
  salt = codes "pro";
  iterations = 4096;
  salted_password = replicate 32 5;
  client_key = replicate 32 7;
  stored_key = replicate 32 9;
  server_key = replicate 32 7;
  auth_message = codes "n=alice,r=abc,r=abcdef,s=QUJD,i=4096,c=biws,r=abcdef";
}

keyed-reached : handle_server_first toy server_first (codes "secret") started ≡ some keyed
unfolding handle_server_first read_field after_pair field digits_field has_prefix b64_decode
    unpadded salted derive_keys set_auth_message hmac_sha256 digits
keyed-reached = refl

abbrev final_text : Str
final_text = codes "c=biws,r=abcdef,p=cHJv"

final_text-sent : client_final toy 512 keyed ≡ some (final_text, record keyed { step = 2 })
unfolding client_final client_proof b64_encode hmac_sha256 xor_bytes
final_text-sent = refl

verify_server_final-signature_example : (verify_server_final toy keyed (codes "v=QUJD") ≡ true) ↔ (
    (sig : Str) × (own_signature toy keyed ≡ some sig)
    × (server_value toy (codes "v=QUJD") ≡ some sig))
verify_server_final-signature_example = verify_server_final-signature toy keyed (codes "v=QUJD")

odd_name-copied : copy_user 128 (codes "a=b,c") ≡ some (codes "a=3Db=2Cc")
unfolding copy_user copy_from
odd_name-copied = refl

copy_user-unescape_example :
    (rest : Str) × (unescape in_text (codes "a=3Db=2Cc") ++ rest ≡ codes "a=b,c")
    × (length (codes "a=3Db=2Cc") < 127 → rest ≡ [])
copy_user-unescape_example = copy_user-unescape (codes "a=b,c") (codes "a=3Db=2Cc") odd_name-copied

copy_user-OneField_example :
    (contains b',' (codes "a=3Db=2Cc") ≡ false) × (length (codes "a=3Db=2Cc") ≤ 127)
copy_user-OneField_example = copy_user-OneField (codes "a=b,c") (codes "a=3Db=2Cc") odd_name-copied

-- Digests that depend on the first bytes of a key and a text.
abbrev stamp : Str → Str → Str
stamp key text = get_or key 0 0 ∷ get_or text 0 0 ∷ replicate 30 7

abbrev stamping : Crypto
stamping = record toy {
  hmac = λ key text. some (stamp key text);
  pbkdf2 = λ password salt n. some (password ++ salt);
  digest = λ text. some text;
  encode_block = λ bytes. replicate 44 b'A';
  decode_block = λ text. some (replicate 16 b's' ++ 0 ∷ 0 ∷ []);
}

abbrev stamps : Digests stamping
stamps = record {
  mac = stamp;
  hash = λ text. text;
  stretch = λ password salt n. password ++ salt;
  macs = λ key text. refl;
  mac_size = λ key text. refl;
  hashes = λ text. refl;
  stretches = λ password salt n. refl;
  encodes = λ bytes h. refl;
}

abbrev account : Account
account = record {
  salt = replicate 16 b's';
  salt_code = codes "AAECAwQFBgcICQoLDA0ODw";
  iterations = 4096;
  rounds = codes "4096";
  stored_key = stamp (codes "secret") (codes "Client Key");
  server_key = stamp (codes "secret") (codes "Server Key");
}
