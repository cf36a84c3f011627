-- ===== src/Segment.antt =====
-- libsponge/tcp_helpers/tcp_header.hh and tcp_segment.{hh,cc}: a TCP segment in memory.
pub mod Wire
use cs144_lab.Base.{Bool, List, false, if◌then◌else◌, length, ℕ, ◌+◌}

-- `struct TCPHeader`. The sequence numbers are `WrappingInt32`s.
pub record TcpHeader : Type 0 where
  pub sport : ℕ
  pub dport : ℕ
  pub seqno : ℕ
  pub ackno : ℕ
  pub doff : ℕ
  pub urg : Bool
  pub ack : Bool
  pub psh : Bool
  pub rst : Bool
  pub syn : Bool
  pub fin : Bool
  pub win : ℕ
  pub cksum : ℕ
  pub uptr : ℕ

-- The initial values of its members.
abbrev pub default_header : TcpHeader
default_header = record {
  sport = 0;
  dport = 0;
  seqno = 0;
  ackno = 0;
  doff = 5;
  urg = false;
  ack = false;
  psh = false;
  rst = false;
  syn = false;
  fin = false;
  win = 0;
  cksum = 0;
  uptr = 0;
}

-- `class TCPSegment`; the payload is the bytes of its `Buffer`.
pub record TcpSegment : Type 0 where
  pub header : TcpHeader
  pub payload : List ℕ

abbrev pub flag : Bool → ℕ
flag b = if b then 1 else 0

abbrev pub length_in_sequence_space : TcpSegment → ℕ
length_in_sequence_space seg = length seg.payload + flag seg.header.syn + flag seg.header.fin
