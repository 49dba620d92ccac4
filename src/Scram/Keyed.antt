-- ===== src/Scram/Keyed.antt =====
-- What a client makes of the first message of a server that knows its password.
use pqproxy.Base.{
  ℕ, suc, ◌+◌, ◌%◌, ◌≤◌, ◌<◌, ◌^◌, ◌≡◌, refl, sym, ap, ◌∙◌, true, false, [], ◌∷◌, ◌++◌, some, Str,
  codes, leb, length, length-append, take, get_or, arith,
}
use pqproxy.Base.Atoi.{digits}
use pqproxy.Base.Members.{contains}
use pqproxy.Scram.{Crypto, Scram, b64_decode, padding, unpadded, hmac_sha256}
use pqproxy.Scram.Exchange.{
  after_pair, digits_field, has_prefix, read_field, derive_keys, without_proof, set_auth_message,
  salted, handle_server_first,
}
use pqproxy.Scram.Fields.{
  cons-NoPair, contains-NoPair, after_pair-append, field-append, digits_field_self,
}
use pqproxy.Scram.Server.{Digests, Account, IsAccount, salt_text, first_text, signed_text}

take-append : (s t : Str) → take (length s) (s ++ t) ≡ s
take-append [] t = refl
take-append (c ∷ s) t = ap (◌∷◌ c) (take-append s t)

get_or-append : (s t : Str) (i : ℕ) → get_or (s ++ t) (length s + i) 0 ≡ get_or t i 0
get_or-append [] t i = ap (λ k. get_or t k 0) (omega arith)
get_or-append (c ∷ s) t i =
    ap (λ k. get_or (c ∷ (s ++ t)) k 0) (the_suc (length s) i) ∙ get_or-append s t i
  where
    the_suc : (n i : ℕ) → suc n + i ≡ suc (n + i)
    the_suc n i = omega arith

-- A text of 22 letters and two `=` has 24 bytes, of which two are padding.
padding-code : (s : Str) → length s ≡ 22 → padding (s ++ codes "==") ≡ 2
padding-code s h =
    let len : length (s ++ codes "==") ≡ 24 = omega (arith, h, length-append s (codes "==")) in
    let last : get_or (s ++ codes "==") 23 0 ≡ b'=' =
      ap (λ k. get_or (s ++ codes "==") k 0) (omega (arith, h)) ∙ get_or-append s (codes "==") 1 in
    let other : get_or (s ++ codes "==") 22 0 ≡ b'=' =
      ap (λ k. get_or (s ++ codes "==") k 0) (omega (arith, h)) ∙ get_or-append s (codes "==") 0 in
    rw (len, last, other) refl

unpadded-append : (s : Str) → length s ≡ 16 → unpadded 64 2 (s ++ 0 ∷ 0 ∷ []) ≡ some s
unfolding unpadded
unpadded-append s h =
    let len : length (s ++ 0 ∷ 0 ∷ []) ≡ 18 = omega (arith, h, length-append s (0 ∷ 0 ∷ [])) in
    rw len (ap some (ap (λ n. take n (s ++ 0 ∷ 0 ∷ [])) (sym h) ∙ take-append s (0 ∷ 0 ∷ [])))

-- A first message whose fields are read.
handle_server_first-some :
    (crypto : Crypto) (text password : Str) (s : Scram) {nonce salt_b64 salt p : Str}
    → has_prefix s.client_nonce nonce ≡ true
    → read_field b'r' b'=' 127 text ≡ some nonce
    → read_field b's' b'=' 127 text ≡ some salt_b64
    → b64_decode crypto salt_b64 64 ≡ some salt
    → after_pair b'i' b'=' text ≡ some p
    → handle_server_first crypto text password s
      ≡ salted crypto password text
          (digits_field 15 p)
          (record s { server_nonce = nonce; salt = salt })
unfolding handle_server_first
handle_server_first-some crypto text password s prefix e1 e2 e3 e4 =
    rw (handle_server_first, e1, prefix, e2, e3, e4) refl

module _ {crypto : Crypto} (d : Digests crypto) {password : Str} {a : Account}
    (is : IsAccount d password a) where
  -- The salt is decoded, and its padding is cut off.
  salt_text-decoded : b64_decode crypto (salt_text a) 64 ≡ some a.salt
  unfolding b64_decode
  salt_text-decoded =
      let len : length (salt_text a) ≡ 24 =
        omega (arith, is.code_size, length-append a.salt_code (codes "==")) in
      rw (len, is.decodes)
        (ap (λ n. unpadded 64 n (a.salt ++ 0 ∷ 0 ∷ [])) (padding-code a.salt_code is.code_size)
          ∙ unpadded-append a.salt is.salt_size)

  pub hmac_sha256-mac : (key text : Str) → hmac_sha256 crypto key text ≡ some (d.mac key text)
  unfolding hmac_sha256
  hmac_sha256-mac key text = rw (d.macs key text, hmac_sha256) (ground (arith, d.mac_size key text))

  -- Each field is read, past the ones before it.
  after_nonce :
      (n : Str)
      → contains b'=' n ≡ false
      → after_pair b's' b'=' (first_text d a n) ≡ some (salt_text a ++ (codes ",i=" ++ a.rounds))
  unfolding after_pair
  after_nonce n h =
      after_pair-append b's' b'=' (codes "r=" ++ n) b','
        (codes "s=" ++ (salt_text a ++ (codes ",i=" ++ a.rounds)))
        (refl, contains-NoPair b's' b'=' b'=' n h) refl

  after_salt :
      (n : Str) → contains b'=' n ≡ false → after_pair b'i' b'=' (first_text d a n) ≡ some a.rounds
  unfolding after_pair
  after_salt n h =
      after_pair-append b'i' b'=' (codes "r=" ++ n) b','
        (codes "s=" ++ (salt_text a ++ (codes ",i=" ++ a.rounds)))
        (refl, contains-NoPair b'i' b'=' b'=' n h) refl
      ∙ after_pair-append b'i' b'=' (b'=' ∷ salt_text a) b',' (codes "i=" ++ a.rounds)
          (cons-NoPair b'i' b'=' b'=' (salt_text a) refl is.no_i) refl

  read-nonce :
      (n : Str)
      → contains b',' n ≡ false
      → length n ≤ 127
      → read_field b'r' b'=' 127 (first_text d a n) ≡ some n
  unfolding read_field after_pair
  read-nonce n h l =
      ap some (field-append 127 n (codes "s=" ++ (salt_text a ++ (codes ",i=" ++ a.rounds))) h l)

  read-salt :
      (n : Str)
      → contains b'=' n ≡ false
      → read_field b's' b'=' 127 (first_text d a n) ≡ some (salt_text a)
  unfolding read_field
  read-salt n h =
      let len : length (salt_text a) ≡ 24 =
        omega (arith, is.code_size, length-append a.salt_code (codes "==")) in
      rw (after_nonce n h, read_field)
        (ap some (
          field-append 127 (salt_text a) (codes "i=" ++ a.rounds) is.no_comma (omega (arith, len))))

  abbrev pub client_key : Str
  client_key = d.mac (d.stretch password a.salt a.iterations) (codes "Client Key")

  -- The keys of the account.
  abbrev keys : Scram → Scram
  keys s = record s {
    salted_password = d.stretch password a.salt a.iterations;
    client_key = d.mac (d.stretch password a.salt a.iterations) (codes "Client Key");
    stored_key = a.stored_key;
    server_key = a.server_key;
  }

  derive_keys-account :
      (s : Scram) → derive_keys crypto (d.stretch password a.salt a.iterations) s ≡ some (keys s)
  unfolding derive_keys
  derive_keys-account s =
      rw
        (
          derive_keys,
          hmac_sha256-mac (d.stretch password a.salt a.iterations) (codes "Client Key"),
          d.hashes client_key,
          hmac_sha256-mac (d.stretch password a.salt a.iterations) (codes "Server Key"),
          sym is.stored,
          sym is.server,
        )
        refl

  -- The state after the server's first message.
  abbrev pub keyed : Scram → Str → Scram
  keyed s n =
      record (keys (record s { server_nonce = n; salt = a.salt; iterations = a.iterations })) {
        auth_message = signed_text d a s.client_first_bare n;
      }

  iterations-read : (digits 0 (digits_field 15 a.rounds)).0 % 2 ^ 32 ≡ a.iterations
  iterations-read =
      ap (λ (t : Str). (digits 0 t).0 % 2 ^ 32) (digits_field_self 15 a.rounds is.decimal is.short)
      ∙ omega (arith, is.counted, is.fits)

  auth_message-set :
      (s : Scram)
      → length s.server_nonce ≤ 127
      → length (signed_text d a s.client_first_bare s.server_nonce) < 768
      → set_auth_message (first_text d a s.server_nonce) s
        ≡ some (record s { auth_message = signed_text d a s.client_first_bare s.server_nonce })
  unfolding set_auth_message
  auth_message-set s l m =
      let short : leb 160 (length (without_proof s)) ≡ false =
        ground (arith, length-append (codes "c=biws,r=") s.server_nonce) in
      let whole : leb 768 (length (signed_text d a s.client_first_bare s.server_nonce)) ≡ false =
        ground arith in
      rw (short, whole, set_auth_message) refl

  salted-keyed :
      (s : Scram) (n : Str)
      → length n ≤ 127
      → length (signed_text d a s.client_first_bare n) < 768
      → salted crypto password
          (first_text d a n)
          (digits_field 15 a.rounds)
          (record s { server_nonce = n; salt = a.salt })
        ≡ some (keyed s n)
  unfolding salted
  salted-keyed s n l m =
      let t : ℕ → Scram = λ k. record s { server_nonce = n; salt = a.salt; iterations = k } in
      let key = d.stretch password a.salt a.iterations in
      rw
        (
          salted,
          ap (crypto.pbkdf2 password a.salt) iterations-read
              ∙ d.stretches password a.salt a.iterations,
          ap (λ k. derive_keys crypto key (t k)) iterations-read
              ∙ derive_keys-account (t a.iterations),
          auth_message-set (keys (t a.iterations)) l m,
        )
        refl

  -- The server's first message is accepted.
  pub handle_server_first-keyed :
      (s : Scram) (n : Str)
      → has_prefix s.client_nonce n ≡ true
      → contains b',' n ≡ false
      → contains b'=' n ≡ false
      → length n ≤ 127
      → length (signed_text d a s.client_first_bare n) < 768
      → handle_server_first crypto (first_text d a n) password s ≡ some (keyed s n)
  handle_server_first-keyed s n prefix no_comma no_equals l m =
      handle_server_first-some crypto (first_text d a n) password s prefix (read-nonce n no_comma l)
        (read-salt n no_equals) salt_text-decoded (after_salt n no_equals)
      ∙ salted-keyed s n l m
