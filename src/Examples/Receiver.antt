-- ===== src/Examples/Receiver.antt =====
-- A receiver of a stream of five bytes whose first number is near 2 ^ 32.
use cs144_lab.Base.{[], arith, if◌then◌else◌, refl, slice, some, true, ℕ, ◌+◌, ◌∷◌, ◌≡◌, ◌≢◌}
use cs144_lab.Wrapping.{wrap}
use cs144_lab.Reassembler
use cs144_lab.Reassembler.{push_substring}
use cs144_lab.Segment.{TcpHeader, TcpSegment, default_header}
use cs144_lab.Receiver
use cs144_lab.Receiver.{TcpReceiver, segment_received, ackno, stream_index}
use cs144_lab.Receiver.Genuine.{
  Carries, IsGenuine, Tracks, new-Tracks, segment_received-Tracks, segment_received-Carries,
}
use cs144_lab.Receiver.Feedback.{ackno_lem, stream_index_far}
use cs144_lab.Examples.{sample}

abbrev isn : ℕ
isn = 4294967294

abbrev syn_data : TcpSegment
syn_data = record {
  header = record default_header { seqno = isn; syn = true };
  payload = 10 ∷ 11 ∷ [];
}

abbrev late_data : TcpSegment
late_data = record {
  header = record default_header { seqno = 2; fin = true };
  payload = 13 ∷ 14 ∷ [];
}

syn-Carries : Carries sample 5 isn 0 syn_data
syn-Carries = record {
  part = record { whole = unfold slice in refl; inside = omega arith; last = λ e. cc };
  first = λ e. (refl, refl);
  later = λ e. cc;
}

late-Carries : Carries sample 5 isn 3 late_data
late-Carries = record {
  part = record { whole = unfold slice in refl; inside = omega arith; last = λ e. refl };
  first = λ e. cc;
  later = λ e. unfold wrap in refl;
}

new-Tracks_here : Tracks sample 5 isn (Receiver.new 8)
new-Tracks_here = new-Tracks sample 5 isn 8 (omega arith) (omega arith) (omega arith)

abbrev opened : TcpReceiver
opened = segment_received (Receiver.new 8) syn_data

segment_received-Tracks_example : Tracks sample 5 isn opened
segment_received-Tracks_example =
    segment_received-Tracks sample 5 isn (Receiver.new 8) syn_data new-Tracks_here
      (IsGenuine.carries 0 syn-Carries)

opened-Tracks : Tracks sample 5 isn opened
opened-Tracks =
    segment_received-Tracks sample 5 isn (Receiver.new 8) syn_data new-Tracks_here
      (IsGenuine.carries 0 syn-Carries)

opened-syn : opened.syn ≡ true
unfolding Receiver.new Receiver.note_flags Receiver.segment_received
opened-syn = refl

-- The number 2, past the wrap, is the place of the fourth byte.
segment_received-Carries_example :
    (segment_received opened late_data).reassembler
    ≡ push_substring opened.reassembler (13 ∷ 14 ∷ []) 3 true
segment_received-Carries_example =
    segment_received-Carries sample 5 isn opened 3 late_data opened-Tracks late-Carries
      (cc opened-syn)

ackno_lem_example :
    ackno opened
    ≡ some (
        wrap
          (1
            + opened.reassembler.output.totin
            + (if opened.reassembler.output.is_input_end then 1 else 0))
          isn)
ackno_lem_example = ackno_lem sample 5 isn opened opened-Tracks opened-syn

abbrev far_header : TcpHeader
far_header = record default_header { seqno = 1 }

stream_index_far_example : stream_index (Receiver.new 8) far_header ≢ 4294967296
stream_index_far_example =
    stream_index_far (Receiver.new 8) far_header 4294967296 refl (unfold Receiver.new in refl)
      (unfold Receiver.new Reassembler.new in omega arith) (unfold Receiver.new wrap in refl)
      (omega arith) (omega arith)
