-- ===== src/Auth/Socket.antt =====
-- read_msg and write_all of src/backend_pool.c, over what each system call does.
use pqproxy.Base.{
  ℕ, zero, suc, ◌+◌, ◌-◌, ◌*◌, ◌^◌, min, ◌||◌, List, [], ◌∷◌, ◌++◌, Str, ltb, if◌then◌else◌, length,
  take, drop,
}
use pqproxy.Recv.{msg_length}

-- A call of read or write: it is interrupted, it fails, or it moves at most `n + 1` bytes.
pub data Call : Type 0 where
  interrupted fails : Call
  moves : ℕ → Call

-- How reading ends: in failure, in a call that does not return, or with the bytes, the calls and the
-- stream that are left.
pub data Reading : Type 0 where
  broken blocked : Reading
  done : Str → List Call → Str → Reading

-- The bytes go in front of those that reading gives.
abbrev pub prepend : Str → Reading → Reading
prepend bytes broken = broken
prepend bytes blocked = blocked
prepend bytes (done more calls stream) = done (bytes ++ more) calls stream

-- A loop of read_msg, with `want` bytes to go. An empty stream is closed.
unfoldable pub read_exactly : List Call → Str → ℕ → Reading
read_exactly calls stream zero = done [] calls stream
read_exactly [] stream (suc want) = blocked
read_exactly (interrupted ∷ calls) stream (suc want) = read_exactly calls stream (suc want)
read_exactly (fails ∷ calls) stream (suc want) = broken
read_exactly (moves n ∷ calls) [] (suc want) = broken
read_exactly (moves n ∷ calls) (b ∷ stream) (suc want) =
    let k = min n (min want (length stream)) in
    prepend (b ∷ take k stream) (read_exactly calls (drop k stream) (want - k))

-- The rest of read_msg, after the header.
unfoldable pub read_body : ℕ → Reading → Reading
unfolding read_exactly
read_body cap broken = broken
read_body cap blocked = blocked
read_body cap (done hdr calls stream) =
    let mlen = msg_length hdr in
    if ltb mlen 4 || ltb (16 * 2 ^ 20) mlen || ltb cap (1 + mlen)
    then broken
    else prepend hdr (read_exactly calls stream (1 + mlen - 5))

-- read_msg
unfoldable pub read_msg : List Call → Str → ℕ → Reading
unfolding read_body
read_msg calls stream cap = read_body cap (read_exactly calls stream 5)
