-- ===== src/Examples/Reads.antt =====
-- A reply of three messages that arrives in reads that cut the messages.
use pqproxy.Base.{
  ◌+◌, ◌≡◌, refl, Bool, true, false, ◌&&◌, ◌||◌, List, [], ◌∷◌, some, Str, ◌==◌, get_or, arith,
}
use pqproxy.Recv.{
  PipelineApi, Recv, msg_length, completes, front, fed, delivered, be_filter_append, on_front,
  scan_loop, kept, async_on_recv,
}
use pqproxy.Recv.Reads.{SameReply, receive, join, receive-join}

-- The status is whether ReadyForQuery (90) was seen; ParseComplete (49) and BindComplete (50) are
-- filtered.
abbrev plain : PipelineApi Bool
plain = record {
  peek = λ m. some (get_or m 0 0, 1 + msg_length m);
  feed = λ st m. (true, get_or m 0 0 == 90);
  complete = λ st. st;
  filtered = λ type skip. skip && (type == 49 || type == 50);
}

abbrev fresh : Recv Bool
fresh = record { recv_acc = []; pipe_st = false; out = [] }

-- ParseComplete, a CommandComplete with two bytes, ReadyForQuery with one.
abbrev reads : List Str
reads = (0 ∷ 0 ∷ 4 ∷ 67 ∷ 0 ∷ []) ∷ (0 ∷ 0 ∷ 6 ∷ 79 ∷ 0 ∷ 90 ∷ 0 ∷ 0 ∷ 0 ∷ []) ∷ (5 ∷ 73 ∷ []) ∷ []

receive-join_example :
    SameReply plain true 100
      (async_on_recv plain true 100 fresh (join plain true 100 ((49 ∷ 0 ∷ []) ∷ reads)))
      (receive plain true 100 fresh ((49 ∷ 0 ∷ []) ∷ reads))
receive-join_example = receive-join plain true 100 fresh (49 ∷ 0 ∷ []) reads (omega arith)

delivers : async_on_recv plain true 100 fresh (join plain true 100 ((49 ∷ 0 ∷ []) ∷ reads)) ≡ (
  completes,
  record {
    recv_acc = [];
    pipe_st = true;
    out = 67 ∷ 0 ∷ 0 ∷ 0 ∷ 6 ∷ 79 ∷ 0 ∷ 90 ∷ 0 ∷ 0 ∷ 0 ∷ 5 ∷ 73 ∷ [];
  },
)
unfolding async_on_recv scan_loop on_front be_filter_append fed delivered kept front
delivers = refl
