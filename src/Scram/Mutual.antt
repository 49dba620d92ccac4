-- ===== src/Scram/Mutual.antt =====
-- A client and a server that hold the same password accept each other.
use pqproxy.Base.{◌++◌, Str, codes}
use pqproxy.Base.Bits.{xor_bytes}
use pqproxy.Scram.{Crypto, Scram}
use pqproxy.Scram.Server.{Digests, Account, IsAccount, signed_text}
use pqproxy.Scram.Keyed.{client_key}

module _ {crypto : Crypto} (d : Digests crypto) {password : Str} {a : Account}
    (is : IsAccount d password a) where
  -- The client's last message: its key under the server's own computation of the signature.
  abbrev proof_of : Scram → Str → Str
  proof_of s n =
      xor_bytes (client_key d is) (d.mac a.stored_key (signed_text d a s.client_first_bare n))

  abbrev final_of : Scram → Str → Str
  final_of s n = codes "c=biws,r=" ++ n ++ codes ",p=" ++ crypto.encode_block (proof_of s n)
