-- ===== src/Receiver.antt =====
-- libsponge/tcp_receiver.{hh,cc}: segments in, a byte stream and acknowledgments out.
pub mod Reading
pub mod Genuine
pub mod Feedback
use cs144_lab.Base.{
  Bool, Option, add64, false, if◌then◌else◌, none, not, some, sub64, true, u32, ℕ, ◌&&◌,
}
use cs144_lab.Wrapping.{wrap, unwrap}
use cs144_lab.ByteStream
use cs144_lab.ByteStream.{ByteStream}
use cs144_lab.Reassembler
use cs144_lab.Reassembler.{StreamReassembler, push_substring}
use cs144_lab.Segment.{TcpHeader, TcpSegment}

-- `class TCPReceiver`. Its member `_checkpoint` is set by the constructor and not used again.
pub record TcpReceiver : Type 0 where
  pub reassembler : StreamReassembler
  pub capacity : ℕ
  pub isn : ℕ
  pub checkpoint : ℕ
  pub syn : Bool
  pub fin : Bool

unfoldable pub new : ℕ → TcpReceiver
new capacity = record {
  reassembler = Reassembler.new capacity;
  capacity = capacity;
  isn = 0;
  checkpoint = 0;
  syn = false;
  fin = false;
}

abbrev pub stream_out : TcpReceiver → ByteStream
stream_out r = r.reassembler.output

abbrev pub unassembled_bytes : TcpReceiver → ℕ
unassembled_bytes r = r.reassembler.unassembled_count

-- The members that `segment_received` sets from the header.
unfoldable pub note_flags : TcpReceiver → TcpHeader → TcpReceiver
note_flags r header =
    let r' = if header.syn then record r { syn = true; isn = header.seqno } else r in
    if header.fin then record r' { fin = true } else r'

-- Its local `index`: the absolute sequence number, unwrapped near the count of unassembled bytes.
unfoldable pub absolute_index : TcpReceiver → TcpHeader → ℕ
absolute_index r header = unwrap header.seqno (u32 r.isn) (unassembled_bytes r)

-- The index in the stream at which the payload is pushed.
unfoldable pub stream_index : TcpReceiver → TcpHeader → ℕ
stream_index r header = if header.syn then 0 else sub64 (absolute_index r header) 1

unfoldable pub segment_received : TcpReceiver → TcpSegment → TcpReceiver
segment_received r seg =
    if not seg.header.syn && not r.syn
    then r
    else if seg.header.syn && r.syn
    then r
    else let r' = note_flags r seg.header in
      record r' {
        reassembler =
            push_substring r'.reassembler seg.payload (stream_index r' seg.header) seg.header.fin;
      }

unfoldable pub ackno : TcpReceiver → Option ℕ
ackno r =
    if r.syn
    then (let absolute_seqno = add64 (ByteStream.bytes_written (stream_out r)) 1 in
        if ByteStream.input_ended (stream_out r)
        then some (wrap (add64 absolute_seqno 1) (u32 r.isn))
        else some (wrap absolute_seqno (u32 r.isn)))
    else none

unfoldable pub window_size : TcpReceiver → ℕ
window_size r = sub64 r.capacity (ByteStream.buffer_size (stream_out r))
