-- ===== src/SpongeSocket/Delivery.antt =====
-- What a socket passes on from its receiver to the application.
use cs144_lab.Base.{
  Bool, Bool-cases, List, ap, ap₂, arith, inl, inr, length, refl, slice, true, ℕ, ◌+◌, ◌||◌, ◌∙◌,
  ◌≡◌, ◌≤◌, ◌⊎◌,
}
use cs144_lab.ByteStream
use cs144_lab.ByteStream.Laws.{read_lem, length-peek_output}
use cs144_lab.Connection.Inbound.{failed}
use cs144_lab.Connection.Invariant.{IsOf, Stream}
use cs144_lab.Connection.Parts.{receiver_failed}
use cs144_lab.Reassembler
use cs144_lab.Receiver
use cs144_lab.Receiver.{TcpReceiver}
use cs144_lab.Receiver.Genuine.{Tracks, segment_received-Tracks, segment_received_reader}
use cs144_lab.Receiver.Reading.{reader, read-Tracks, read_moves, read_stretch}
use cs144_lab.Segment.{TcpSegment}

-- Segments do not take the error mark away.
has_error-push_substring :
    (r : Reassembler.StreamReassembler) (bytes : List ℕ) (index : ℕ) (eof : Bool)
    → (Reassembler.push_substring r bytes index eof).output.has_error ≡ r.output.has_error
unfolding Reassembler.push_substring Reassembler.accept Reassembler.deliver Reassembler.finish
    ByteStream.write ByteStream.end_input
has_error-push_substring r bytes index eof = ground arith

has_error-segment_received :
    (r : TcpReceiver) (seg : TcpSegment)
    → (Receiver.stream_out (Receiver.segment_received r seg)).has_error
      ≡ (Receiver.stream_out r).has_error
unfolding Receiver.segment_received Receiver.note_flags
has_error-segment_received r seg =
    let r' = Receiver.note_flags r seg.header in
    ground (
      arith,
      has_error-push_substring r'.reassembler seg.payload (Receiver.stream_index r' seg.header)
          seg.header.fin,
    )

-- Of the stream `peer`, `n` bytes have been passed on; the application has been shown the end, if
-- `shut`, only where these are all or the stream has failed.
pub record HasPassed (peer : Stream) (n : ℕ) (shut : Bool) (r : TcpReceiver) : Type 0 where
  pub tracks : Tracks peer.byte_at peer.size peer.isn r
  pub consumed : (Receiver.stream_out r).totout ≡ n
  pub over : shut ≡ true → ((Receiver.stream_out r).has_error ≡ true) ⊎ (n ≡ peer.size)

module _ (peer : Stream) (n : ℕ) (shut : Bool) (r : TcpReceiver) (p : HasPassed peer n shut r) where
  pub failed-HasPassed : HasPassed peer n shut (failed r)
  unfolding ByteStream.set_error
  failed-HasPassed = record {
    tracks = receiver_failed peer.byte_at peer.size peer.isn r p.tracks;
    consumed = p.consumed;
    over = λ e. inl refl;
  }

  pub segment_received-HasPassed :
      (seg : TcpSegment) → IsOf peer seg → HasPassed peer n shut (Receiver.segment_received r seg)
  segment_received-HasPassed seg g = record {
    tracks = segment_received-Tracks peer.byte_at peer.size peer.isn r seg p.tracks g;
    consumed =
        segment_received_reader peer.byte_at peer.size peer.isn r seg p.tracks g ∙ p.consumed;
    over = rw (has_error-segment_received r seg) p.over;
  }

  module _ (k : ℕ) (h : k ≤ length (Receiver.stream_out r).buff) where
    abbrev left : ByteStream.ByteStream
    left = (ByteStream.read (Receiver.stream_out r) k).0

    given_length : length (ByteStream.read (Receiver.stream_out r) k).1 ≡ k
    given_length =
        ap length (ap (λ t. t.1) (read_lem (Receiver.stream_out r) k))
        ∙ length-peek_output (Receiver.stream_out r) k
        ∙ omega arith

    left_consumed : left.totout ≡ n + k
    left_consumed =
        omega
          (arith, read_moves peer.byte_at peer.size peer.isn r k p.tracks, given_length, p.consumed)

    -- All has been passed on when a stream that is ended is empty.
    left_over :
        (shut || (ByteStream.eof left || ByteStream.error left)) ≡ true
        → (left.has_error ≡ true) ⊎ (n + k ≡ peer.size)
    unfolding ByteStream.read ByteStream.pop_output ByteStream.eof
    left_over e =
        let v = (read-Tracks peer.byte_at peer.size peer.isn r k p.tracks).holds.valid in
        let inside : n + k ≤ peer.size =
          omega (arith, left_consumed, v.stream.counted, v.written-le) in
        elim (Bool-cases left.has_error) [
          | inl wrong ↦ inl wrong
          | inr fine ↦ elim (Bool-cases shut) [
            | inl already ↦ elim (p.over already) [
              | inl wrong ↦ inl wrong
              | inr all ↦ inr (omega arith)
            ]
            | inr not_yet ↦
                let ended : left.is_input_end ≡ true = ground (arith, e, fine, not_yet) in
                let empty : length left.buff ≡ 0 = ground (arith, e, fine, not_yet) in
                inr (omega (arith, left_consumed, v.stream.counted, v.ended_complete ended, empty))
          ]
        ]

    -- As much as the kernel takes is read from the stream.
    pub reader-HasPassed :
        HasPassed peer (n + k) (shut || (ByteStream.eof left || ByteStream.error left)) (reader r k)
    reader-HasPassed = record {
      tracks = read-Tracks peer.byte_at peer.size peer.isn r k p.tracks;
      consumed = left_consumed;
      over = left_over;
    }

    pub passed_stretch : (ByteStream.read (Receiver.stream_out r) k).1 ≡ slice peer.byte_at n k
    passed_stretch =
        read_stretch peer.byte_at peer.size peer.isn r k p.tracks
        ∙ ap₂ (slice peer.byte_at) p.consumed given_length
