-- ===== src/Segment/Wire/HeaderRoundTrip.antt =====
-- libsponge/tcp_helpers/tcp_header.cc: a header that is written is read back.
use Prim.Native.Nat.{bit_or}
use cs144_lab.Base.{
  Bool, List, [], ap, arith, length, length-append, some, sym, ℕ, ◌*◌, ◌++◌, ◌-◌, ◌/◌, ◌<◌, ◌^◌,
  ◌∙◌, ◌≡◌, ◌≤◌,
}
use cs144_lab.Parser.{no_error, unparse_int, remove_prefix}
use cs144_lab.Parser.RoundTrip.{at, u8-unparse, u16-unparse, u32-unparse}
use cs144_lab.Segment.{TcpHeader}
use cs144_lab.Segment.Wire.{has_flag, flags_byte, parse_header, serialize_header, bit}
use cs144_lab.Segment.Wire.Padding.{zeros, length-zeros, skip_zeros}
use cs144_lab.Segment.Wire.Fields.{
  IsWellFormed, fields, fields_append, length-fields, serialize_fields,
}

abbrev pack : Bool → Bool → Bool → Bool → Bool → Bool → ℕ
pack urg ack psh rst syn fin =
    bit_or
      (bit_or
        (bit_or (bit_or (bit_or (bit urg 0b0010_0000) (bit ack 0b0001_0000)) (bit psh 0b0000_1000))
          (bit rst 0b0000_0100))
        (bit syn 0b0000_0010))
      (bit fin 0b0000_0001)

pack_lem :
    (urg ack psh rst syn fin : Bool)
    → let b = pack urg ack psh rst syn fin in
      (b < 2 ^ 8)
      × (has_flag b 0b0010_0000 ≡ urg)
      × (has_flag b 0b0001_0000 ≡ ack)
      × (has_flag b 0b0000_1000 ≡ psh)
      × (has_flag b 0b0000_0100 ≡ rst)
      × (has_flag b 0b0000_0010 ≡ syn)
      × (has_flag b 0b0000_0001 ≡ fin)
unfolding has_flag
pack_lem urg ack psh rst syn fin = (
  ground arith,
  ground arith,
  ground arith,
  ground arith,
  ground arith,
  ground arith,
  ground arith,
)

flags_lem :
    (h : TcpHeader)
    → (flags_byte h < 2 ^ 8)
      × (has_flag (flags_byte h) 0b0010_0000 ≡ h.urg)
      × (has_flag (flags_byte h) 0b0001_0000 ≡ h.ack)
      × (has_flag (flags_byte h) 0b0000_1000 ≡ h.psh)
      × (has_flag (flags_byte h) 0b0000_0100 ≡ h.rst)
      × (has_flag (flags_byte h) 0b0000_0010 ≡ h.syn)
      × (has_flag (flags_byte h) 0b0000_0001 ≡ h.fin)
unfolding flags_byte
flags_lem h = pack_lem h.urg h.ack h.psh h.rst h.syn h.fin

-- The fields that were written are read, whatever follows.
parse_fields :
    (h : TcpHeader) (tail : List ℕ)
    → IsWellFormed h
    → parse_header (at (fields h tail))
      ≡ (let p = remove_prefix (at tail) (h.doff * 4 - 20) in (p.result, h, p))
unfolding parse_header
parse_fields h tail w =
    let t9 = unparse_int 2 h.uptr ++ tail in
    let t8 = unparse_int 2 h.cksum ++ t9 in
    let t7 = unparse_int 2 h.win ++ t8 in
    let t6 = unparse_int 1 (flags_byte h) ++ t7 in
    let t5 = unparse_int 1 (h.doff * 2 ^ 4) ++ t6 in
    let t4 = unparse_int 4 h.ackno ++ t5 in
    let t3 = unparse_int 4 h.seqno ++ t4 in
    let t2 = unparse_int 2 h.dport ++ t3 in
    rw
      (
        u16-unparse h.sport t2 w.sport_small,
        u16-unparse h.dport t3 w.dport_small,
        u32-unparse h.seqno t4 w.seqno_small,
        u32-unparse h.ackno t5 w.ackno_small,
        u8-unparse (h.doff * 2 ^ 4) t6 (omega (arith, w)),
        u8-unparse (flags_byte h) t7 (flags_lem h).0,
        u16-unparse h.win t8 w.win_small,
        u16-unparse h.cksum t9 w.cksum_small,
        u16-unparse h.uptr tail w.uptr_small,
      )
      (rw
        (
          doff_back,
          (flags_lem h).1,
          (flags_lem h).2,
          (flags_lem h).3,
          (flags_lem h).4,
          (flags_lem h).5,
          (flags_lem h).6,
        )
        (ground (arith, w.doff_enough)))
  where
    doff_back : h.doff * 16 / 16 ≡ h.doff
    doff_back = omega arith

-- The bytes of a header, whatever follows them, are read back.
pub parse_serialized :
    (h : TcpHeader) (rest : List ℕ)
    → IsWellFormed h
    → parse_header (at (fields h (zeros (4 * h.doff - 20)) ++ rest)) ≡ (no_error, h, at rest)
parse_serialized h rest w =
    ap (λ t. parse_header (at t)) (fields_append h (zeros (4 * h.doff - 20)) rest)
    ∙ parse_fields h (zeros (4 * h.doff - 20) ++ rest) w
    ∙ ap (λ p. (p.result, h, p)) skipped
  where
    skipped : remove_prefix (at (zeros (4 * h.doff - 20) ++ rest)) (h.doff * 4 - 20) ≡ at rest
    skipped =
        ap (remove_prefix (at (zeros (4 * h.doff - 20) ++ rest))) (omega arith)
        ∙ skip_zeros (4 * h.doff - 20) rest

-- They are as many as the data offset says.
pub length-serialized :
    (h : TcpHeader) → 5 ≤ h.doff → length (fields h (zeros (4 * h.doff - 20))) ≡ 4 * h.doff
length-serialized h w =
    ap length (sym (fields_append h [] (zeros (4 * h.doff - 20))))
    ∙ length-append (fields h []) (zeros (4 * h.doff - 20))
    ∙ omega (arith, length-fields h, length-zeros (4 * h.doff - 20), w)

-- A header whose fields are within their widths and whose data offset is at least 5 is serialized
-- to as many bytes as that offset says, and from those, whatever follows them, `parse` reads the
-- same header without error and stops in front of what follows.
pub parse_header-serialize :
    (h : TcpHeader) (rest : List ℕ)
    → IsWellFormed h
    → (bytes : List ℕ) × (serialize_header h ≡ some bytes)
      × (length bytes ≡ 4 * h.doff)
      × (parse_header (at (bytes ++ rest)) ≡ (no_error, h, at rest))
parse_header-serialize h rest w = (
  fields h (zeros (4 * h.doff - 20)),
  serialize_fields h w,
  length-serialized h w.doff_enough,
  parse_serialized h rest w,
)
