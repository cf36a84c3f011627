-- ===== src/Connection/Boundary.antt =====
-- The state of a connection at its boundary: a new one, reads of the application, and the queue of
-- segments taken.
use cs144_lab.Base.{[], ap, arith, length, refl, slice, ℕ, ◌+◌, ◌<◌, ◌^◌, ◌∙◌, ◌≡◌}
use cs144_lab.ByteStream
use cs144_lab.Reassembler
use cs144_lab.Receiver
use cs144_lab.Receiver.Genuine.{new-Tracks}
use cs144_lab.Sender
use cs144_lab.Sender.Application.{new-IsValid}
use cs144_lab.Receiver.Reading.{reader, read-Tracks, read_moves, read_stretch}
use cs144_lab.Connection.{TcpConfig, new, inbound, TcpConnection}
use cs144_lab.Connection.Invariant.{Stream, Serves}

-- A new connection serves the two streams, none of it read.
pub new-Serves :
    (own peer : Stream) (cfg : TcpConfig) (random : ℕ)
    → (new cfg random).sender.isn ≡ own.isn
    → cfg.send_capacity < 2 ^ 64
    → cfg.recv_capacity < 2 ^ 31
    → own.size + 1 < 2 ^ 32
    → own.isn < 2 ^ 32
    → peer.size + 1 < 2 ^ 32
    → peer.isn < 2 ^ 32
    → Serves own peer 0 (new cfg random)
unfolding new
new-Serves own peer cfg random fixed a b c d e f = record {
  sender =
      new-IsValid own.byte_at own.size own.isn cfg.send_capacity cfg.rt_timeout cfg.fixed_isn random
        fixed a c d;
  narrow = unfold Sender.new in omega arith;
  receiver = new-Tracks peer.byte_at peer.size peer.isn cfg.recv_capacity f b e;
  queued = tt;
  consumed = unfold Receiver.new Reassembler.new ByteStream.new in refl;
}

-- Reading moves the count on by what is read, which is the next stretch of the stream.
module _ (own peer : Stream) (n : ℕ) (c : TcpConnection) (len : ℕ) (v : Serves own peer n c) where
  pub read-Serves :
      Serves own peer
        (n + length (ByteStream.read (inbound c) len).1)
        (record c { receiver = reader c.receiver len })
  read-Serves = record {
    sender = v.sender;
    narrow = v.narrow;
    receiver = read-Tracks peer.byte_at peer.size peer.isn c.receiver len v.receiver;
    queued = v.queued;
    consumed =
        omega
          (arith, read_moves peer.byte_at peer.size peer.isn c.receiver len v.receiver, v.consumed);
  }

  pub read_next :
      (ByteStream.read (inbound c) len).1
      ≡ slice peer.byte_at n (length (ByteStream.read (inbound c) len).1)
  read_next =
      read_stretch peer.byte_at peer.size peer.isn c.receiver len v.receiver
      ∙ ap (λ k. slice peer.byte_at k (length (ByteStream.read (inbound c) len).1)) v.consumed

-- Taking the queued segments leaves the rest.
pub sent-Serves :
    (own peer : Stream) (n : ℕ) (c : TcpConnection)
    → Serves own peer n c
    → Serves own peer n (record c { segments_out = [] })
sent-Serves own peer n c v = ground (arith, v)
