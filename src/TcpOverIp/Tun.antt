-- ===== src/TcpOverIp/Tun.antt =====
-- libsponge/tcp_helpers/tuntap_adapter.hh: segments as packets of a TUN device.
use cs144_lab.Base.{List, Option, [], none, some, ℕ}
use cs144_lab.Parser.{no_error}
use cs144_lab.Segment.{TcpSegment}
use cs144_lab.Ipv4.{default_ipv4_header}
use cs144_lab.Ipv4.Datagram.{Ipv4Datagram, parse_datagram, serialize_datagram}
use cs144_lab.TcpOverIp.{FdAdapter, unwrap_tcp_in_ip, wrap_tcp_in_ip}

abbrev pub empty_datagram : Ipv4Datagram
empty_datagram = record { header = default_ipv4_header; payload = [] }

-- `TCPOverIPv4OverTunFdAdapter::read`: `packet` is what the device gives, `dotted` as for
-- `unwrap_tcp_in_ip`.
unfoldable pub tun_read : (ℕ → ℕ) → FdAdapter → List ℕ → FdAdapter × Option TcpSegment
tun_read dotted a packet =
    let (result, d) = parse_datagram empty_datagram packet in
    elim result [ no_error ↦ unwrap_tcp_in_ip dotted a d | _ ↦ (a, none) ]

-- `TCPOverIPv4OverTunFdAdapter::write`: the segment after it, and what the device is given; `none` is
-- an exception.
unfoldable pub tun_write : FdAdapter → TcpSegment → Option (TcpSegment × List ℕ)
tun_write a seg = elim (wrap_tcp_in_ip a seg) [
  | none ↦ none
  | some (seg', d) ↦ elim (serialize_datagram d) [ none ↦ none | some packet ↦ some (seg', packet) ]
]
