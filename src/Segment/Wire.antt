-- ===== src/Segment/Wire.antt =====
-- libsponge/tcp_helpers/tcp_header.cc and tcp_segment.cc: a segment as bytes.
pub mod Padding
pub mod Fields
pub mod HeaderRoundTrip
pub mod SegmentRoundTrip
use Prim.Native.Nat.{bit_and, bit_or}
use cs144_lab.Base.{
  Bool, List, Option, [], false, if◌then◌else◌, ltb, none, not, some, suc, true, zero, ℕ, ◌&&◌, ◌*◌,
  ◌++◌, ◌-◌, ◌/◌, ◌==◌, ◌^◌, ◌∷◌,
}
use cs144_lab.Checksum
use cs144_lab.Parser.{
  ParseResult, no_error, bad_checksum, header_too_short, NetParser, u8_of, u16_of, u32_of,
  remove_prefix, error, get_error, u8_bytes, u16_bytes, u32_bytes,
}
use cs144_lab.Parser
use cs144_lab.Segment.{TcpHeader, TcpSegment}

abbrev header_length : ℕ
header_length = 20

-- `static_cast<bool>(fl_b & mask)`
unfoldable pub has_flag : ℕ → ℕ → Bool
has_flag fl_b mask = not (bit_and fl_b mask == 0)

-- `TCPHeader::parse`: the result, the header that it leaves, and the parser.
unfoldable pub parse_header : NetParser → ParseResult × TcpHeader × NetParser
parse_header p =
    let (p1, sport) = u16_of p in
    let (p2, dport) = u16_of p1 in
    let (p3, seqno) = u32_of p2 in
    let (p4, ackno) = u32_of p3 in
    let (p5, doff_byte) = u8_of p4 in
    let (p6, fl_b) = u8_of p5 in
    let (p7, win) = u16_of p6 in
    let (p8, cksum) = u16_of p7 in
    let (p9, uptr) = u16_of p8 in
    let header : TcpHeader = record {
      sport = sport;
      dport = dport;
      seqno = seqno;
      ackno = ackno;
      doff = doff_byte / 2 ^ 4;
      urg = has_flag fl_b 0b0010_0000;
      ack = has_flag fl_b 0b0001_0000;
      psh = has_flag fl_b 0b0000_1000;
      rst = has_flag fl_b 0b0000_0100;
      syn = has_flag fl_b 0b0000_0010;
      fin = has_flag fl_b 0b0000_0001;
      win = win;
      cksum = cksum;
      uptr = uptr;
    } in
    if ltb header.doff 5
    then (header_too_short, header, p9)
    else let p10 = remove_prefix p9 (header.doff * 4 - header_length) in
      (if error p10 then get_error p10 else no_error, header, p10)

abbrev pub bit : Bool → ℕ → ℕ
bit b mask = if b then mask else 0

unfoldable pub flags_byte : TcpHeader → ℕ
flags_byte h =
    bit_or
      (bit_or
        (bit_or
          (bit_or (bit_or (bit h.urg 0b0010_0000) (bit h.ack 0b0001_0000)) (bit h.psh 0b0000_1000))
          (bit h.rst 0b0000_0100))
        (bit h.syn 0b0000_0010))
      (bit h.fin 0b0000_0001)

-- `ret.resize(n)`
unfoldable pub resize : ℕ → List ℕ → List ℕ
resize zero bytes = []
resize (suc n) [] = 0 ∷ resize n []
resize (suc n) (b ∷ bytes) = b ∷ resize n bytes

-- `TCPHeader::serialize`; `none` is its exception.
unfoldable pub serialize_header : TcpHeader → Option (List ℕ)
serialize_header h =
    if ltb h.doff 5
    then none
    else some (
        resize (4 * h.doff) (
          u16_bytes h.sport
          ++ (u16_bytes h.dport
              ++ (u32_bytes h.seqno
                  ++ (u32_bytes h.ackno
                      ++ (u8_bytes (h.doff * 2 ^ 4)
                          ++ (u8_bytes (flags_byte h)
                              ++ (u16_bytes h.win ++ (u16_bytes h.cksum ++ u16_bytes h.uptr)))))))))

-- `TCPSegment::parse`: the result and the segment that it leaves. `old` is the segment before.
unfoldable pub parse : TcpSegment → List ℕ → ℕ → ParseResult × TcpSegment
parse old buffer datagram_layer_checksum =
    if not (Checksum.value (Checksum.add (Checksum.new datagram_layer_checksum) buffer) == 0)
    then (bad_checksum, old)
    else let (_, header, p) = parse_header (Parser.new buffer) in
      (get_error p, record { header = header; payload = p.buffer })

-- `TCPSegment::serialize`
unfoldable pub serialize : TcpSegment → ℕ → Option (List ℕ)
serialize seg datagram_layer_checksum = elim (serialize_header (record seg.header { cksum = 0 })) [
  | none ↦ none
  | some blank_header ↦
      let check =
        Checksum.add (Checksum.add (Checksum.new datagram_layer_checksum) blank_header)
          seg.payload in
      elim (serialize_header (record seg.header { cksum = Checksum.value check })) [
        | none ↦ none
        | some header ↦ some (header ++ seg.payload)
      ]
]

-- `TCPHeader::operator==`
unfoldable pub equal_headers : TcpHeader → TcpHeader → Bool
equal_headers a b =
    (a.seqno == b.seqno)
    && ((a.ackno == b.ackno)
        && ((a.doff == b.doff)
            && (same a.urg b.urg
                && (same a.ack b.ack
                    && (same a.psh b.psh
                        && (same a.rst b.rst
                            && (same a.syn b.syn
                                && (same a.fin b.fin
                                    && ((a.win == b.win) && (a.uptr == b.uptr))))))))))
  where
    same : Bool → Bool → Bool
    same true c = c
    same false c = not c
