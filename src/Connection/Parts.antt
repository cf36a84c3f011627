-- ===== src/Connection/Parts.antt =====
-- What the steps of a connection do to its two halves.
use cs144_lab.Base.{List, Option, [], arith, none, some, true, u16, ℕ, ◌∷◌}
use cs144_lab.ByteStream
use cs144_lab.Segment.{TcpSegment}
use cs144_lab.Receiver
use cs144_lab.Receiver.{TcpReceiver}
use cs144_lab.Receiver.Genuine.{IsGenuine, carries, blank, Tracks}
use cs144_lab.Sender.{TcpSender}
use cs144_lab.Sender.Invariant.{IsValid, AllGenuine}
use cs144_lab.Connection.{stamp, stamp_all}

module _ (S : ℕ → ℕ) (N isn : ℕ) where
  -- An acknowledgment that is put on a segment leaves what it carries.
  stamp-IsGenuine :
      (r : TcpReceiver) (seg : TcpSegment) → IsGenuine S N isn seg → IsGenuine S N isn (stamp r seg)
  unfolding stamp
  stamp-IsGenuine r seg g = go (Receiver.ackno r) g
    where
      go :
          (a : Option ℕ)
          → IsGenuine S N isn seg
          → IsGenuine S N isn (elim a [
            | none ↦ seg
            | some ackno ↦ record seg {
              header = record seg.header {
                ack = true;
                ackno = ackno;
                win = u16 (Receiver.window_size r);
              };
            }
          ])
      go none g = g
      go (some a) (carries index c) =
          carries index (record { part = c.part; first = c.first; later = c.later })
      go (some a) (blank p s f) = blank p s f

  pub stamp_all-AllGenuine :
      (r : TcpReceiver) (segs : List TcpSegment)
      → AllGenuine S N isn segs
      → AllGenuine S N isn (stamp_all r segs)
  unfolding stamp_all
  stamp_all-AllGenuine r [] a = tt
  stamp_all-AllGenuine r (seg ∷ segs) a =
      (stamp-IsGenuine r seg a.0, stamp_all-AllGenuine r segs a.1)

  pub sender_failed :
      (s : TcpSender)
      → IsValid S N isn s
      → IsValid S N isn (record s { stream = ByteStream.set_error s.stream })
  unfolding ByteStream.set_error
  sender_failed s v = ground arith

  pub receiver_failed :
      (r : TcpReceiver)
      → Tracks S N isn r
      → Tracks S N isn (record r {
        reassembler = record r.reassembler { output = ByteStream.set_error r.reassembler.output };
      })
  unfolding ByteStream.set_error
  receiver_failed r t = ground arith
