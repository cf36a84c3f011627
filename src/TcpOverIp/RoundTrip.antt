-- ===== src/TcpOverIp/RoundTrip.antt =====
-- A segment that one end writes to its TUN device, the other end reads from its own.
use cs144_lab.Base.{
  List, ap, arith, false, length, refl, some, ℕ, ◌%◌, ◌*◌, ◌+◌, ◌<◌, ◌^◌, ◌∙◌, ◌≡◌,
}
use cs144_lab.Ipv4
use cs144_lab.Parser.{no_error}
use cs144_lab.Segment.{TcpSegment}
use cs144_lab.Segment.Wire
use cs144_lab.Segment.Wire.SegmentRoundTrip.{parse-serialize}
use cs144_lab.Ipv4.{Ipv4Header, default_ipv4_header, pseudo_cksum, payload_length}
use cs144_lab.Ipv4.Datagram.{Ipv4Datagram, parse_datagram, serialize_datagram}
use cs144_lab.Ipv4.RoundTrip.{parse_datagram-serialize_datagram}
use cs144_lab.TcpOverIp.{FdAdapter, empty_segment, unwrap_tcp_in_ip, accept_segment, wrap_tcp_in_ip}
use cs144_lab.TcpOverIp.Tun.{tun_read, tun_write, empty_datagram}

-- The addresses are numbers of 32 bits, the ports of 16.
pub record IsConfigured (a : FdAdapter) : Type 0 where
  pub source_small : a.source.ipv4_numeric < 2 ^ 32
  pub destination_small : a.destination.ipv4_numeric < 2 ^ 32
  pub source_port_small : a.source.port < 2 ^ 16
  pub destination_port_small : a.destination.port < 2 ^ 16

-- Two ends that are each other's peer; the second no longer listens.
pub record ArePeers (a b : FdAdapter) : Type 0 where
  pub to : b.source ≡ a.destination
  pub from : b.destination ≡ a.source
  pub connected : b.listening ≡ false

module _ (a : FdAdapter) (seg : TcpSegment) where
  -- The segment with the ports of the adapter.
  abbrev pub addressed : TcpSegment
  addressed = record seg {
    header = record seg.header { sport = a.source.port; dport = a.destination.port };
  }

  abbrev ip_header : Ipv4Header
  ip_header = record default_ipv4_header {
    src = a.source.ipv4_numeric;
    dst = a.destination.ipv4_numeric;
    len = (default_ipv4_header.hlen * 4 + seg.header.doff * 4 + length seg.payload) % 2 ^ 16;
  }

  pseudo_small : IsConfigured a → pseudo_cksum ip_header < 2 ^ 23
  unfolding pseudo_cksum payload_length
  pseudo_small c = omega (arith, c)

-- The checksum of the header is no part of the pseudo-header.
pseudo_cksum_lem : (h : Ipv4Header) (k : ℕ) → pseudo_cksum (record h { cksum = k }) ≡ pseudo_cksum h
unfolding pseudo_cksum payload_length
pseudo_cksum_lem h k = refl

-- A datagram that one end makes, the other accepts.
unwrap_lem :
    (dotted : ℕ → ℕ) (a b : FdAdapter) (seg got : TcpSegment) (d : Ipv4Datagram)
    → ArePeers a b
    → d.header.src ≡ a.source.ipv4_numeric
    → d.header.dst ≡ a.destination.ipv4_numeric
    → d.header.proto ≡ 6
    → Wire.parse empty_segment d.payload (pseudo_cksum d.header) ≡ (no_error, got)
    → got.header.sport ≡ a.source.port
    → got.header.dport ≡ a.destination.port
    → unwrap_tcp_in_ip dotted b d ≡ (b, some got)
unfolding unwrap_tcp_in_ip accept_segment
unwrap_lem dotted a b seg got d p src dst proto e sport dport = ground arith

module _ (a : FdAdapter) (seg : TcpSegment) (c : IsConfigured a)
    (w : Wire.Fields.IsWellFormed (record seg.header { cksum = 0 }))
    (short : 20 + 4 * seg.header.doff + length seg.payload < 2 ^ 16) where
  addressed-IsWellFormed : Wire.Fields.IsWellFormed (record (addressed a seg).header { cksum = 0 })
  addressed-IsWellFormed = omega (arith, w, c)

  -- The segment as bytes, and what they are parsed to.
  segment_bytes :
      (bytes : List ℕ) × (k : ℕ) × (Wire.serialize
          (addressed a seg)
          (pseudo_cksum (ip_header a seg))
        ≡ some bytes)
      × (length bytes ≡ 4 * seg.header.doff + length seg.payload)
      × (Wire.parse empty_segment bytes (pseudo_cksum (ip_header a seg)) ≡ (
        no_error,
        record (addressed a seg) { header = record (addressed a seg).header { cksum = k } },
      ))
  segment_bytes =
      parse-serialize (addressed a seg) empty_segment (pseudo_cksum (ip_header a seg))
        addressed-IsWellFormed (pseudo_small a seg c) (omega arith)

  datagram : Ipv4Datagram
  datagram = record { header = ip_header a seg; payload = segment_bytes.0 }

  datagram-IsWellFormed : Ipv4.Fields.IsWellFormed (record (ip_header a seg) { cksum = 0 })
  datagram-IsWellFormed = omega (arith, c)

  packet :
      (bytes : List ℕ) × (k : ℕ) × (serialize_datagram datagram ≡ some bytes)
      × (parse_datagram empty_datagram bytes ≡ (
        no_error,
        record { header = record (ip_header a seg) { cksum = k }; payload = segment_bytes.0 },
      ))
  unfolding datagram
  packet =
      let q =
        parse_datagram-serialize_datagram datagram empty_datagram datagram-IsWellFormed
          (omega (arith, segment_bytes.3)) in
      (q.0, q.1, q.2, q.4)

  written : tun_write a seg ≡ some (addressed a seg, packet.0)
  unfolding tun_write wrap_tcp_in_ip datagram
  written = ground (arith, segment_bytes.2, packet.2)

  unwrapped :
      (dotted : ℕ → ℕ) (b : FdAdapter)
      → ArePeers a b
      → tun_read dotted b packet.0 ≡ (
        b,
        some (record (addressed a seg) {
          header = record (addressed a seg).header { cksum = segment_bytes.1 };
        }),
      )
  unfolding tun_read
  unwrapped dotted b p =
      let got : TcpSegment = record (addressed a seg) {
        header = record (addressed a seg).header { cksum = segment_bytes.1 };
      } in
      let d : Ipv4Datagram = record {
        header = record (ip_header a seg) { cksum = packet.1 };
        payload = segment_bytes.0;
      } in
      ground (
        arith,
        packet.3,
        unwrap_lem dotted a b seg got d p refl refl refl
            (ap (Wire.parse empty_segment segment_bytes.0)
                (pseudo_cksum_lem (ip_header a seg) packet.1)
              ∙ segment_bytes.4)
            refl refl,
      )

-- For an adapter whose addresses fit 32 and whose ports 16 bits, a peer with the two addresses
-- exchanged that does not listen, and a segment whose fields (the checksum aside) fit their widths,
-- with a data offset of at least 5 and less than 2 ^ 16 bytes with both headers, `write` of the one
-- end gives the device a packet from which `read` of the other returns the segment, with the ports
-- of the adapter and some checksum.
pub tun_read-tun_write :
    (dotted : ℕ → ℕ) (a b : FdAdapter) (seg : TcpSegment)
    → IsConfigured a
    → ArePeers a b
    → Wire.Fields.IsWellFormed (record seg.header { cksum = 0 })
    → 20 + 4 * seg.header.doff + length seg.payload < 2 ^ 16
    → (packet : List ℕ) × (k : ℕ) × (tun_write a seg ≡ some (addressed a seg, packet))
      × (tun_read dotted b packet ≡ (
        b,
        some (record (addressed a seg) { header = record (addressed a seg).header { cksum = k } }),
      ))
tun_read-tun_write dotted a b seg c p w short = (
  (packet a seg c w short).0,
  (segment_bytes a seg c w short).1,
  written a seg c w short,
  unwrapped a seg c w short dotted b p,
)
