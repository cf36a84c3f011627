-- ===== src/Duplex.antt =====
-- Two connections, and between them a network that loses, repeats and reorders segments. Every segment
-- that an end ever sent stays on its wire; one that is lost is one that never arrives.
use cs144_lab.Base.{
  List, [], ap, ap₂, arith, length, length-append, slice, slice-append, true, ℕ, ◌++◌, ◌+◌, ◌∙◌,
  ◌≡◌, ◌≤◌,
}
use cs144_lab.ByteStream
use cs144_lab.Segment.{TcpSegment}
use cs144_lab.Receiver.Reading.{reader}
use cs144_lab.Sender.Invariant.{AllGenuine, AllGenuine-append}
use cs144_lab.Connection
use cs144_lab.Connection.{TcpConnection, inbound}
use cs144_lab.Connection.Invariant.{
  Stream, Serves, connect-Serves, write-Serves, end_input_stream-Serves, tick-Serves,
  segment_received-Serves,
}
use cs144_lab.Connection.Boundary.{read-Serves, read_next, sent-Serves}
use cs144_lab.Network.{OnWire, OnWire-IsGenuine}

-- One end: its connection, all that it has sent, and what its application has read.
pub record Peer : Type 0 where
  pub connection : TcpConnection
  pub wire : List TcpSegment
  pub delivered : List ℕ

-- What an end that sends the stream `own` may do next, where `arriving` is what the other has sent.
pub data Act (own : Stream) (arriving : List TcpSegment) (p : Peer) : Peer → Type 0 where
  connects : Act own arriving p (record p { connection = Connection.connect p.connection })
  writes :
      (bytes : List ℕ)
      → bytes ≡ slice own.byte_at p.connection.sender.stream.totin (length bytes)
      → p.connection.sender.stream.totin + length bytes ≤ own.size
      → Act own arriving p (record p { connection = (Connection.write p.connection bytes).0 })
  ends :
      p.connection.sender.stream.totin ≡ own.size
      → Act own arriving p (record p { connection = Connection.end_input_stream p.connection })
  ticks : (ms : ℕ) → Act own arriving p (record p { connection = Connection.tick p.connection ms })
  transmits : Act own arriving p (record p {
    connection = record p.connection { segments_out = [] };
    wire = p.connection.segments_out ++ p.wire;
  })
  receives :
      (seg : TcpSegment)
      → OnWire seg arriving
      → Act own arriving p (record p { connection = Connection.segment_received p.connection seg })
  reads :
      (len : ℕ)
      → Act own arriving p (record p {
        connection = record p.connection { receiver = reader p.connection.receiver len };
        delivered = p.delivered ++ (ByteStream.read (inbound p.connection) len).1;
      })

pub record Duplex : Type 0 where
  pub left : Peer
  pub right : Peer

-- One of the two ends acts.
pub data Step (left right : Stream) (y : Duplex) : Duplex → Type 0 where
  at_left : {p : Peer} → Act left y.right.wire y.left p → Step left right y (record y { left = p })
  at_right :
      {p : Peer} → Act right y.left.wire y.right p → Step left right y (record y { right = p })

pub data Reach (left right : Stream) (y : Duplex) : Duplex → Type 0 where
  start : Reach left right y y
  next : {z w : Duplex} → Reach left right y z → Step left right z w → Reach left right y w

-- An end that serves its two streams, has sent genuine segments only, and whose application has read
-- the beginning of the stream of the other.
pub record IsSound (own peer : Stream) (p : Peer) : Type 0 where
  pub serves : Serves own peer (length p.delivered) p.connection
  pub wire : AllGenuine own.byte_at own.size own.isn p.wire
  pub delivered : p.delivered ≡ slice peer.byte_at 0 (length p.delivered)

module _ (own peer : Stream) where
  after :
      (p : Peer) (c : TcpConnection)
      → IsSound own peer p
      → Serves own peer (length p.delivered) c
      → IsSound own peer (record p { connection = c })
  after p c i v = record { serves = v; wire = i.wire; delivered = i.delivered }

  -- Whatever an end does keeps it sound, as long as what arrives is genuine.
  Act-IsSound :
      {arriving : List TcpSegment} {p q : Peer}
      → Act own arriving p q
      → AllGenuine peer.byte_at peer.size peer.isn arriving
      → IsSound own peer p
      → IsSound own peer q
  Act-IsSound {p = p} connects a i =
      after p (Connection.connect p.connection) i
        (connect-Serves own peer (length p.delivered) p.connection i.serves)
  Act-IsSound {p = p} (writes bytes e h) a i =
      after p (Connection.write p.connection bytes).0 i
        (write-Serves own peer (length p.delivered) p.connection bytes i.serves e h)
  Act-IsSound {p = p} (ends e) a i =
      after p (Connection.end_input_stream p.connection) i
        (end_input_stream-Serves own peer (length p.delivered) p.connection i.serves e)
  Act-IsSound {p = p} (ticks ms) a i =
      after p (Connection.tick p.connection ms) i
        (tick-Serves own peer (length p.delivered) p.connection ms i.serves)
  Act-IsSound {p = p} transmits a i = record {
    serves = sent-Serves own peer (length p.delivered) p.connection i.serves;
    wire =
        AllGenuine-append own.byte_at own.size own.isn p.connection.segments_out p.wire
          i.serves.queued i.wire;
    delivered = i.delivered;
  }
  Act-IsSound {p = p} (receives seg w) a i =
      after p (Connection.segment_received p.connection seg) i (
        segment_received-Serves own peer (length p.delivered) p.connection seg i.serves
          (OnWire-IsGenuine peer.byte_at peer.size peer.isn w a))
  Act-IsSound {p = p} (reads len) a i =
      let out = (ByteStream.read (inbound p.connection) len).1 in
      let n = length p.delivered in
      record {
        serves =
            rw (length-append p.delivered out) (read-Serves own peer n p.connection len i.serves);
        wire = i.wire;
        delivered = rw (length-append p.delivered out) (
            ap₂ ◌++◌ i.delivered (read_next own peer n p.connection len i.serves)
            ∙ slice-append peer.byte_at n (length out));
      }

  -- Of a sound end: what it delivered, and what it delivers when the stream of the other is ended.
  delivered_lem :
      (p : Peer)
      → IsSound own peer p
      → (p.delivered ≡ slice peer.byte_at 0 (length p.delivered)) × (length p.delivered ≤ peer.size)
  delivered_lem p i =
      let h = i.serves.receiver.holds.valid in
      (i.delivered, omega (arith, i.serves.consumed, h.stream, h.written-le))

  complete_lem :
      (p : Peer)
      → IsSound own peer p
      → (inbound p.connection).is_input_end ≡ true
      → p.delivered ++ (inbound p.connection).buff ≡ slice peer.byte_at 0 peer.size
  complete_lem p i e =
      let out = inbound p.connection in
      let h = i.serves.receiver.holds.valid in
      ap₂ ◌++◌ i.delivered
        (h.buffered ∙ ap (λ k. slice peer.byte_at k (length out.buff)) i.serves.consumed)
      ∙ slice-append peer.byte_at (length p.delivered) (length out.buff)
      ∙ ap (slice peer.byte_at 0) (omega (arith, h.stream, i.serves.consumed, h.ended_complete e))

module _ (left right : Stream) where
  AreSound : Duplex → Type 0
  AreSound y = IsSound left right y.left × IsSound right left y.right

  Step-AreSound : {y z : Duplex} → Step left right y z → AreSound y → AreSound z
  unfolding AreSound
  Step-AreSound {y} (at_left act) i = (Act-IsSound left right act i.1.wire i.0, i.1)
  Step-AreSound {y} (at_right act) i = (i.0, Act-IsSound right left act i.0.wire i.1)

  Reach-AreSound : {y z : Duplex} → Reach left right y z → AreSound y → AreSound z
  Reach-AreSound start i = i
  Reach-AreSound (next run st) i = Step-AreSound st (Reach-AreSound run i)

  -- From two connections that are sound for the streams that their applications send, each stream
  -- and its two flags numbered in 32 bits, after any sequence of steps of either end (connecting,
  -- writing the next bytes, ending the stream when all is written, ticks of any length,
  -- transmissions, the delivery of any segment that the other end ever sent, in any order, any
  -- number of times or never, and reads), what each application has read is a prefix of the stream
  -- of the other.
  pub Reach-prefixes :
      {y z : Duplex}
      → Reach left right y z
      → IsSound left right y.left
      → IsSound right left y.right
      → (z.left.delivered ≡ slice right.byte_at 0 (length z.left.delivered))
        × (length z.left.delivered ≤ right.size)
        × (z.right.delivered ≡ slice left.byte_at 0 (length z.right.delivered))
        × (length z.right.delivered ≤ left.size)
  unfolding AreSound
  Reach-prefixes {z = z} run l r =
      let i = Reach-AreSound run (l, r) in
      let a = delivered_lem left right z.left i.0 in
      let b = delivered_lem right left z.right i.1 in (a.0, a.1, b.0, b.1)

  -- When, after any such run from two sound connections, the inbound stream of the right end is
  -- marked as ended, what its application has read followed by what is still in its buffer is the
  -- whole stream of the left end.
  pub Reach-completes :
      {y z : Duplex}
      → Reach left right y z
      → IsSound left right y.left
      → IsSound right left y.right
      → (inbound z.right.connection).is_input_end ≡ true
      → z.right.delivered ++ (inbound z.right.connection).buff ≡ slice left.byte_at 0 left.size
  unfolding AreSound
  Reach-completes {z = z} run l r e =
      complete_lem right left z.right (Reach-AreSound run (l, r)).1 e
