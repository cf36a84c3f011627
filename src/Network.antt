-- ===== src/Network.antt =====
-- A sender, a network that loses, repeats and reorders segments, and a receiver.
-- The wire keeps every segment that was ever handed to it; a segment that is lost is one that is never
-- delivered. Acknowledgments are arbitrary.
use cs144_lab.Base.{
  List, [], ap, ap₂, arith, length, length-slice, refl, slice, slice-append, slice_zero, some, sym,
  true, ℕ, ◌++◌, ◌+◌, ◌<◌, ◌^◌, ◌∙◌, ◌∷◌, ◌≡◌, ◌≤◌,
}
use cs144_lab.ByteStream
use cs144_lab.ByteStream.{ByteStream}
use cs144_lab.Segment.{TcpSegment}
use cs144_lab.Reassembler
use cs144_lab.Receiver.Reading.{reader, read-Tracks, read_moves, read_stretch}
use cs144_lab.Receiver
use cs144_lab.Receiver.{TcpReceiver}
use cs144_lab.Receiver.Genuine.{
  IsGenuine, Tracks, new-Tracks, segment_received-Tracks, segment_received_reader,
}
use cs144_lab.Sender
use cs144_lab.Sender.{TcpSender}
use cs144_lab.Sender.Invariant.{IsValid, AllGenuine, AllGenuine-append}
use cs144_lab.Sender.Window.{fill_window-Filled}
use cs144_lab.Sender.Acknowledge.{ack_received-IsValid}
use cs144_lab.Sender.Timer.{tick-IsValid, send_empty_segment-IsValid}
use cs144_lab.Sender.Application.{new-IsValid, write-IsValid_sender, end_input-IsValid}

pub record System : Type 0 where
  pub sender : TcpSender
  pub wire : List TcpSegment
  pub receiver : TcpReceiver
  pub delivered : List ℕ

-- A segment is on the wire.
pub data OnWire (seg : TcpSegment) : List TcpSegment → Type 0 where
  here : {segs : List TcpSegment} → OnWire seg (seg ∷ segs)
  there :
      {other : TcpSegment} {segs : List TcpSegment} → OnWire seg segs → OnWire seg (other ∷ segs)

pub OnWire-IsGenuine :
    (S : ℕ → ℕ) (N isn : ℕ) {seg : TcpSegment} {segs : List TcpSegment}
    → OnWire seg segs
    → AllGenuine S N isn segs
    → IsGenuine S N isn seg
OnWire-IsGenuine S N isn here a = a.0
OnWire-IsGenuine S N isn (there w) a = OnWire-IsGenuine S N isn w a.1

module _ (S : ℕ → ℕ) (N : ℕ) where
  -- What the applications, the timer and the network may do next.
  pub data Step (y : System) : System → Type 0 where
    writes :
        (bytes : List ℕ)
        → bytes ≡ slice S y.sender.stream.totin (length bytes)
        → y.sender.stream.totin + length bytes ≤ N
        → Step y (record y {
          sender = record y.sender { stream = (ByteStream.write y.sender.stream bytes).0 };
        })
    ends :
        y.sender.stream.totin ≡ N
        → Step y (record y {
          sender = record y.sender { stream = ByteStream.end_input y.sender.stream };
        })
    fills : y.sender.win_size < 2 ^ 16 → Step y (record y { sender = Sender.fill_window y.sender })
    acks :
        (ackno window_size : ℕ)
        → window_size < 2 ^ 16
        → Step y (record y { sender = Sender.ack_received y.sender ackno window_size })
    ticks : (ms : ℕ) → Step y (record y { sender = Sender.tick y.sender ms })
    blanks : Step y (record y { sender = Sender.send_empty_segment y.sender })
    transmits : Step y (record y {
      sender = record y.sender { segments_out = [] };
      wire = y.sender.segments_out ++ y.wire;
    })
    delivers :
        (seg : TcpSegment)
        → OnWire seg y.wire
        → Step y (record y { receiver = Receiver.segment_received y.receiver seg })
    reads :
        (len : ℕ)
        → Step y (record y {
          receiver = record y.receiver {
            reassembler = record y.receiver.reassembler {
              output = (ByteStream.read y.receiver.reassembler.output len).0;
            };
          };
          delivered = y.delivered ++ (ByteStream.read y.receiver.reassembler.output len).1;
        })

  pub data Reach (y : System) : System → Type 0 where
    start : Reach y y
    next : {z w : System} → Reach y z → Step z w → Reach y w

  module _ (isn : ℕ) where
    pub record IsSound (y : System) : Type 0 where
      pub sender : IsValid S N isn y.sender
      pub wire : AllGenuine S N isn y.wire
      pub receiver : Tracks S N isn y.receiver
      pub delivered : y.delivered ≡ slice S 0 y.receiver.reassembler.output.totout

    with_sender :
        (y : System) (s : TcpSender)
        → IsSound y
        → IsValid S N isn s
        → IsSound (record y { sender = s })
    with_sender y s i v = record {
      sender = v;
      wire = i.wire;
      receiver = i.receiver;
      delivered = i.delivered;
    }

    sent_all :
        (s : TcpSender) → IsValid S N isn s → IsValid S N isn (record s { segments_out = [] })
    sent_all s v = ground (arith, v)

    read_more :
        (r : TcpReceiver) (got : List ℕ) (len : ℕ)
        → Tracks S N isn r
        → got ≡ slice S 0 r.reassembler.output.totout
        → got ++ (ByteStream.read r.reassembler.output len).1
          ≡ slice S 0 (reader r len).reassembler.output.totout
    read_more r got len t e =
        let n = length (ByteStream.read r.reassembler.output len).1 in
        ap₂ ◌++◌ e (read_stretch S N isn r len t)
        ∙ slice-append S r.reassembler.output.totout n
        ∙ ap (slice S 0) (sym (read_moves S N isn r len t))

    -- Every step keeps the system sound.
    Step-IsSound : {y z : System} → Step y z → IsSound y → IsSound z
    Step-IsSound {y} (writes bytes e h) i =
        with_sender y _ i (write-IsValid_sender S N isn y.sender i.sender bytes e h)
    Step-IsSound {y} (ends e) i = with_sender y _ i (end_input-IsValid S N isn y.sender i.sender e)
    Step-IsSound {y} (fills h) i =
        with_sender y _ i (fill_window-Filled S N isn y.sender i.sender h).valid
    Step-IsSound {y} (acks ackno w h) i =
        with_sender y _ i (ack_received-IsValid S N isn y.sender ackno w i.sender h)
    Step-IsSound {y} (ticks ms) i = with_sender y _ i (tick-IsValid S N isn y.sender ms i.sender)
    Step-IsSound {y} blanks i =
        with_sender y _ i (send_empty_segment-IsValid S N isn y.sender i.sender)
    Step-IsSound {y} transmits i = record {
      sender = sent_all y.sender i.sender;
      wire = AllGenuine-append S N isn y.sender.segments_out y.wire i.sender.genuine i.wire;
      receiver = i.receiver;
      delivered = i.delivered;
    }
    Step-IsSound {y} (delivers seg w) i =
        let g = OnWire-IsGenuine S N isn w i.wire in
        record {
          sender = i.sender;
          wire = i.wire;
          receiver = segment_received-Tracks S N isn y.receiver seg i.receiver g;
          delivered =
              i.delivered
              ∙ ap (slice S 0) (sym (segment_received_reader S N isn y.receiver seg i.receiver g));
        }
    Step-IsSound {y} (reads len) i = record {
      sender = i.sender;
      wire = i.wire;
      receiver = read-Tracks S N isn y.receiver len i.receiver;
      delivered = read_more y.receiver y.delivered len i.receiver i.delivered;
    }

    Reach-IsSound : {y z : System} → Reach y z → IsSound y → IsSound z
    Reach-IsSound start i = i
    Reach-IsSound (next run st) i = Step-IsSound st (Reach-IsSound run i)

    delivered_length :
        (z : System) → IsSound z → length z.delivered ≡ z.receiver.reassembler.output.totout
    delivered_length z i =
        ap length i.delivered ∙ length-slice S 0 z.receiver.reassembler.output.totout

    prefix_of_sound :
        (z : System)
        → IsSound z
        → (z.delivered ≡ slice S 0 (length z.delivered)) × (length z.delivered ≤ N)
    prefix_of_sound z i =
        let n = delivered_length z i in
        let v = i.receiver.holds.valid in
        (i.delivered ∙ ap (slice S 0) (sym n), omega (arith, n, v, v.stream))

    whole_of_sound :
        (z : System)
        → IsSound z
        → z.receiver.reassembler.output.is_input_end ≡ true
        → z.delivered ++ z.receiver.reassembler.output.buff ≡ slice S 0 N
    whole_of_sound z i e =
        let out = z.receiver.reassembler.output in
        let v = i.receiver.holds.valid in
        ap₂ ◌++◌ i.delivered v.buffered
        ∙ slice-append S out.totout (length out.buff)
        ∙ ap (slice S 0) (sym v.stream.counted ∙ v.ended_complete e)

    -- From a system that is sound for a stream of `N` bytes, after any sequence of writes of the
    -- next bytes of the stream, window fills, acknowledgments with a 16-bit window and any number,
    -- ticks, empty segments, transmissions, deliveries of any segment that was ever sent (in any
    -- order and any number of times, or never) and reads, the bytes that the receiving application
    -- has read are the beginning of that stream, byte for byte, and at most `N` of them.
    pub Reach-prefix :
        {y z : System}
        → Reach y z
        → IsSound y
        → (z.delivered ≡ slice S 0 (length z.delivered)) × (length z.delivered ≤ N)
    Reach-prefix {z = z} run i = prefix_of_sound z (Reach-IsSound run i)

    -- When, after any such run from a sound system, the stream of the receiver is marked as ended,
    -- the bytes that its application has read followed by those still in its buffer are the whole
    -- stream of `N` bytes.
    pub Reach-complete :
        {y z : System}
        → Reach y z
        → IsSound y
        → z.receiver.reassembler.output.is_input_end ≡ true
        → z.delivered ++ z.receiver.reassembler.output.buff ≡ slice S 0 N
    Reach-complete {z = z} run i e = whole_of_sound z (Reach-IsSound run i) e

    -- A new sender and a new receiver, with nothing on the wire, are sound.
    pub initial-IsSound :
        (send_capacity recv_capacity retx_timeout : ℕ)
        → send_capacity < 2 ^ 64
        → recv_capacity < 2 ^ 31
        → N + 1 < 2 ^ 32
        → isn < 2 ^ 32
        → IsSound (record {
          sender = Sender.new send_capacity retx_timeout (some isn) 0;
          wire = [];
          receiver = Receiver.new recv_capacity;
          delivered = [];
        })
    initial-IsSound send_capacity recv_capacity retx_timeout a b c d = record {
      sender =
          new-IsValid S N isn send_capacity retx_timeout (some isn) 0 (unfold Sender.new in refl) a
            c d;
      wire = tt;
      receiver = new-Tracks S N isn recv_capacity d b c;
      delivered = unfold Receiver.new Reassembler.new ByteStream.new in sym (slice_zero S 0);
    }
