-- ===== src/TcpOverIp.antt =====
-- libsponge/tcp_helpers/tcp_over_ip.{hh,cc}: TCP segments in IPv4 datagrams, with the part of
-- libsponge/tcp_helpers/fd_adapter.hh that it inherits.
pub mod Tun
pub mod RoundTrip
use cs144_lab.Base.{
  Bool, Option, [], arith, false, if◌then◌else◌, length, none, not, some, ℕ, ◌%◌, ◌&&◌, ◌*◌, ◌+◌,
  ◌==◌, ◌^◌, ◌≡◌,
}
use cs144_lab.Parser.{no_error}
use cs144_lab.Segment.{TcpSegment, default_header}
use cs144_lab.Segment.Wire
use cs144_lab.Ipv4.{Ipv4Header, default_ipv4_header, proto_tcp, pseudo_cksum}
use cs144_lab.Ipv4.Datagram.{Ipv4Datagram}

-- What is used of an `Address`: its number and its port.
pub record Endpoint : Type 0 where
  pub ipv4_numeric : ℕ
  pub port : ℕ

-- `class FdAdapterBase`, with the two addresses of its `FdAdapterConfig`.
pub record FdAdapter : Type 0 where
  pub source : Endpoint
  pub destination : Endpoint
  pub listening : Bool

abbrev pub empty_segment : TcpSegment
empty_segment = record { header = default_header; payload = [] }

-- `dotted` is the number of the `Address` that is made of the text `inet_ntoa` gives for a number.
module _ (dotted : ℕ → ℕ) where
  -- The adapter after a SYN for a port that listens.
  abbrev pub answer : FdAdapter → Ipv4Header → TcpSegment → FdAdapter
  answer a ip seg = record a {
    source = record { ipv4_numeric = dotted ip.dst; port = a.source.port };
    destination = record { ipv4_numeric = dotted ip.src; port = seg.header.sport };
    listening = false;
  }

  -- From the test of the destination port on.
  unfoldable pub accept_segment :
      FdAdapter → Ipv4Header → TcpSegment → FdAdapter × Option TcpSegment
  accept_segment a ip seg =
      if not (seg.header.dport == a.source.port)
      then (a, none)
      else if a.listening
      then (if seg.header.syn && not seg.header.rst
          then from_peer (answer a ip seg) seg
          else (a, none))
      else from_peer a seg
    where
      from_peer : FdAdapter → TcpSegment → FdAdapter × Option TcpSegment
      from_peer a seg =
          if not (seg.header.sport == a.destination.port) then (a, none) else (a, some seg)

  -- `unwrap_tcp_in_ip`: the adapter after it and what it returns.
  unfoldable pub unwrap_tcp_in_ip : FdAdapter → Ipv4Datagram → FdAdapter × Option TcpSegment
  unwrap_tcp_in_ip a d =
      if not a.listening && not (d.header.dst == a.source.ipv4_numeric)
      then (a, none)
      else if not a.listening && not (d.header.src == a.destination.ipv4_numeric)
      then (a, none)
      else if not (d.header.proto == proto_tcp)
      then (a, none)
      else let (result, seg) = Wire.parse empty_segment d.payload (pseudo_cksum d.header) in
        elim result [ no_error ↦ accept_segment a d.header seg | _ ↦ (a, none) ]

-- `wrap_tcp_in_ip`: the segment after it and the datagram; `none` is the exception of `serialize`.
unfoldable pub wrap_tcp_in_ip : FdAdapter → TcpSegment → Option (TcpSegment × Ipv4Datagram)
wrap_tcp_in_ip a seg =
    let seg' : TcpSegment = record seg {
      header = record seg.header { sport = a.source.port; dport = a.destination.port };
    } in
    let header : Ipv4Header = record default_ipv4_header {
      src = a.source.ipv4_numeric;
      dst = a.destination.ipv4_numeric;
      len = (default_ipv4_header.hlen * 4 + seg'.header.doff * 4 + length seg'.payload) % 2 ^ 16;
    } in
    elim (Wire.serialize seg' (pseudo_cksum header)) [
      | none ↦ none
      | some payload ↦ some (seg', record { header = header; payload = payload })
    ]

-- When `unwrap_tcp_in_ip` returns a segment, it is the one that the payload of the datagram parses
-- to without error under the checksum of its header, the datagram says that it carries TCP, the
-- ports of the segment are those of the adapter after the call, and that no longer listens.
pub unwrap_tcp_in_ip-some :
    (dotted : ℕ → ℕ) (a : FdAdapter) (d : Ipv4Datagram) (seg : TcpSegment)
    → (unwrap_tcp_in_ip dotted a d).1 ≡ some seg
    → let a' = (unwrap_tcp_in_ip dotted a d).0 in
      (Wire.parse empty_segment d.payload (pseudo_cksum d.header) ≡ (no_error, seg))
      × (d.header.proto ≡ proto_tcp)
      × (seg.header.dport ≡ a'.source.port)
      × (seg.header.sport ≡ a'.destination.port)
      × (a'.listening ≡ false)
unfolding unwrap_tcp_in_ip accept_segment
unwrap_tcp_in_ip-some dotted a d seg e = ground arith
