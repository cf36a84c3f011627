-- ===== src/Ipv4.antt =====
-- libsponge/tcp_helpers/ipv4_header.{hh,cc}: an IPv4 header, in memory and as bytes.
pub mod Fields
pub mod Datagram
pub mod RoundTrip
use cs144_lab.Base.{
  Bool, List, Option, add32, false, if◌then◌else◌, length, ltb, none, not, some, take, true, ℕ, ◌%◌,
  ◌*◌, ◌++◌, ◌+◌, ◌-◌, ◌/◌, ◌==◌, ◌^◌,
}
use Prim.Native.Nat.{bit_and, bit_or}
use cs144_lab.Parser.{
  NetParser, ParseResult, header_too_short, packet_too_short, wrong_ip_version, truncated_packet,
  bad_checksum, no_error, error, get_error, remove_prefix, u16_bytes, u16_of, u32_bytes, u32_of,
  u8_bytes, u8_of,
}
use cs144_lab.Checksum
use cs144_lab.Segment.Wire.{has_flag, bit, resize}

-- `struct IPv4Header`
pub record Ipv4Header : Type 0 where
  pub ver : ℕ
  pub hlen : ℕ
  pub tos : ℕ
  pub len : ℕ
  pub id : ℕ
  pub df : Bool
  pub mf : Bool
  pub offset : ℕ
  pub ttl : ℕ
  pub proto : ℕ
  pub cksum : ℕ
  pub src : ℕ
  pub dst : ℕ

abbrev ipv4_length : ℕ
ipv4_length = 20

abbrev default_ttl : ℕ
default_ttl = 128

abbrev pub proto_tcp : ℕ
proto_tcp = 6

-- The initial values of its members.
abbrev pub default_ipv4_header : Ipv4Header
default_ipv4_header = record {
  ver = 4;
  hlen = ipv4_length / 4;
  tos = 0;
  len = 0;
  id = 0;
  df = true;
  mf = false;
  offset = 0;
  ttl = default_ttl;
  proto = proto_tcp;
  cksum = 0;
  src = 0;
  dst = 0;
}

-- The fields as `IPv4Header::parse` reads them, and the parser behind them.
unfoldable pub read_fields : NetParser → Ipv4Header × NetParser
read_fields p =
    let (p1, first_byte) = u8_of p in
    let (p2, tos) = u8_of p1 in
    let (p3, len) = u16_of p2 in
    let (p4, id) = u16_of p3 in
    let (p5, fo_val) = u16_of p4 in
    let (p6, ttl) = u8_of p5 in
    let (p7, proto) = u8_of p6 in
    let (p8, cksum) = u16_of p7 in
    let (p9, src) = u32_of p8 in
    let (p10, dst) = u32_of p9 in
    (
      record {
        ver = first_byte / 2 ^ 4;
        hlen = bit_and first_byte 0x0f;
        tos = tos;
        len = len;
        id = id;
        df = has_flag fo_val 0x4000;
        mf = has_flag fo_val 0x2000;
        offset = bit_and fo_val 0x1fff;
        ttl = ttl;
        proto = proto;
        cksum = cksum;
        src = src;
        dst = dst;
      },
      p10,
    )

-- What `IPv4Header::parse` returns for fields read from `bytes`; `p` is the parser behind the options.
unfoldable pub check_fields : Ipv4Header → List ℕ → NetParser → ParseResult
check_fields h bytes p =
    if error p
    then get_error p
    else if Checksum.value (Checksum.add (Checksum.new 0) (take (4 * h.hlen) bytes)) == 0
    then no_error
    else bad_checksum

-- `IPv4Header::parse`: the result, the header that it leaves, and the parser. `old` is the header
-- before.
unfoldable pub parse_ipv4_header : Ipv4Header → NetParser → ParseResult × Ipv4Header × NetParser
parse_ipv4_header old p =
    let data_size = length p.buffer in
    if ltb data_size ipv4_length
    then (packet_too_short, old, p)
    else let (h, q) = read_fields p in
      if ltb data_size (4 * h.hlen)
      then (packet_too_short, h, q)
      else if not (h.ver == 4)
      then (wrong_ip_version, h, q)
      else if ltb h.hlen 5
      then (header_too_short, h, q)
      else if not (data_size == h.len)
      then (truncated_packet, h, q)
      else let q' = remove_prefix q (h.hlen * 4 - ipv4_length) in
        (check_fields h p.buffer q', h, q')

unfoldable pub fragment_word : Ipv4Header → ℕ
fragment_word h = bit_or (bit_or (bit h.df 0x4000) (bit h.mf 0x2000)) (bit_and h.offset 0x1fff)

-- `IPv4Header::serialize`; `none` is its exceptions.
unfoldable pub serialize_ipv4_header : Ipv4Header → Option (List ℕ)
serialize_ipv4_header h =
    if not (h.ver == 4)
    then none
    else if ltb (4 * h.hlen) ipv4_length
    then none
    else some (
        resize (4 * h.hlen) (
          u8_bytes (bit_or (h.ver * 2 ^ 4) (bit_and h.hlen 0xf))
          ++ (u8_bytes h.tos
              ++ (u16_bytes h.len
                  ++ (u16_bytes h.id
                      ++ (u16_bytes (fragment_word h)
                          ++ (u8_bytes h.ttl
                              ++ (u8_bytes h.proto
                                  ++ (u16_bytes h.cksum
                                      ++ (u32_bytes h.src ++ u32_bytes h.dst))))))))))

-- The difference is a `uint16_t`.
unfoldable pub payload_length : Ipv4Header → ℕ
payload_length h = (h.len + 2 ^ 16 - 4 * h.hlen) % 2 ^ 16

unfoldable pub pseudo_cksum : Ipv4Header → ℕ
pseudo_cksum h =
    add32
      (add32 (add32 (h.src / 2 ^ 16 + h.src % 2 ^ 16) (h.dst / 2 ^ 16 + h.dst % 2 ^ 16)) h.proto)
      (payload_length h)
