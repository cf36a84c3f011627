-- ===== src/Ipv4/Datagram.antt =====
-- libsponge/tcp_helpers/ipv4_datagram.{hh,cc}: a header with a payload.
use cs144_lab.Base.{List, Option, if◌then◌else◌, length, none, not, some, ℕ, ◌++◌, ◌==◌}
use cs144_lab.Parser
use cs144_lab.Parser.{ParseResult, packet_too_short, get_error}
use cs144_lab.Checksum
use cs144_lab.Ipv4.{Ipv4Header, parse_ipv4_header, serialize_ipv4_header, payload_length}

-- `class IPv4Datagram`; the payload is the bytes of its `BufferList`.
pub record Ipv4Datagram : Type 0 where
  pub header : Ipv4Header
  pub payload : List ℕ

-- `IPv4Datagram::parse`: the result and the datagram that it leaves. `old` is the datagram before.
unfoldable pub parse_datagram : Ipv4Datagram → List ℕ → ParseResult × Ipv4Datagram
parse_datagram old buffer =
    let (_, header, p) = parse_ipv4_header old.header (Parser.new buffer) in
    let result =
      if length p.buffer == payload_length header then get_error p else packet_too_short in
    (result, record { header = header; payload = p.buffer })

-- `IPv4Datagram::serialize`; `none` is its exceptions.
unfoldable pub serialize_datagram : Ipv4Datagram → Option (List ℕ)
serialize_datagram d =
    if not (length d.payload == payload_length d.header)
    then none
    else elim (serialize_ipv4_header (record d.header { cksum = 0 })) [
      | none ↦ none
      | some blank_header ↦
          let sum = Checksum.value (Checksum.add (Checksum.new 0) blank_header) in
          elim (serialize_ipv4_header (record d.header { cksum = sum })) [
            | none ↦ none
            | some header ↦ some (header ++ d.payload)
          ]
    ]
