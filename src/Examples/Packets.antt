-- ===== src/Examples/Packets.antt =====
-- Round trips of segments, datagrams and packets, and a list of buffers, at concrete bytes.
use cs144_lab.Base.{List, [], arith, drop, false, length, refl, some, true, ℕ, ◌*◌, ◌+◌, ◌∷◌, ◌≡◌}
use cs144_lab.Buffer.{list_size, BufferList, of_string, concatenate, list_remove_prefix}
use cs144_lab.Buffer.Prefixes.{AreValid, list_remove_prefix_lem}
use cs144_lab.Parser
use cs144_lab.Parser.{no_error}
use cs144_lab.Segment.{TcpSegment, default_header}
use cs144_lab.Segment.Wire.{serialize, parse}
use cs144_lab.Segment.Wire.SegmentRoundTrip.{parse-serialize}
use cs144_lab.Ipv4.{default_ipv4_header, parse_ipv4_header}
use cs144_lab.Ipv4.Datagram.{Ipv4Datagram, parse_datagram, serialize_datagram}
use cs144_lab.Ipv4.RoundTrip.{parse_datagram-serialize_datagram}
use cs144_lab.TcpOverIp.{FdAdapter, empty_segment}
use cs144_lab.TcpOverIp.Tun.{tun_read, tun_write, empty_datagram}
use cs144_lab.TcpOverIp.RoundTrip.{addressed, tun_read-tun_write}

-- A segment with two bytes.
abbrev hello : TcpSegment
hello = record {
  header = record default_header { sport = 80; seqno = 77; ack = true; ackno = 12; win = 1000 };
  payload = 104 ∷ 105 ∷ [];
}

parse-serialize_example :
    (bytes : List ℕ) × (k : ℕ) × (serialize hello 5000 ≡ some bytes)
    × (length bytes ≡ 4 * hello.header.doff + length hello.payload)
    × (parse empty_segment bytes 5000
        ≡ (no_error, record hello { header = record hello.header { cksum = k } }))
parse-serialize_example =
    parse-serialize hello empty_segment 5000 (omega arith) (omega arith) (omega arith)

abbrev packet : Ipv4Datagram
packet = record {
  header = record default_ipv4_header { src = 9; dst = 8; len = 23 };
  payload = 1 ∷ 2 ∷ 3 ∷ [];
}

parse_datagram-serialize_datagram_example :
    (bytes : List ℕ) × (k : ℕ) × (serialize_datagram packet ≡ some bytes)
    × (parse_ipv4_header empty_datagram.header (Parser.new bytes)
        ≡ (no_error, record packet.header { cksum = k }, Parser.new packet.payload))
    × (parse_datagram empty_datagram bytes
        ≡ (no_error, record packet { header = record packet.header { cksum = k } }))
parse_datagram-serialize_datagram_example =
    parse_datagram-serialize_datagram packet empty_datagram (omega arith) (omega arith)

abbrev left_end : FdAdapter
left_end = record {
  source = record { ipv4_numeric = 1; port = 1000 };
  destination = record { ipv4_numeric = 2; port = 80 };
  listening = false;
}

abbrev right_end : FdAdapter
right_end = record {
  source = record { ipv4_numeric = 2; port = 80 };
  destination = record { ipv4_numeric = 1; port = 1000 };
  listening = false;
}

tun_read-tun_write_example :
    (packet : List ℕ) × (k : ℕ) × (tun_write left_end hello
      ≡ some (addressed left_end hello, packet))
    × (tun_read (λ n. n) right_end packet ≡ (
      right_end,
      some (record (addressed left_end hello) {
        header = record (addressed left_end hello).header { cksum = k };
      }),
    ))
tun_read-tun_write_example =
    tun_read-tun_write (λ n. n) left_end right_end hello (omega arith)
      (record { to = refl; from = refl; connected = refl }) (omega arith) (omega arith)

abbrev two_buffers : BufferList
two_buffers = of_string (1 ∷ 2 ∷ 3 ∷ []) ∷ of_string (4 ∷ 5 ∷ []) ∷ []

list_remove_prefix_lem_example :
    (l' : BufferList) × (list_remove_prefix two_buffers 4 ≡ some l')
    × (concatenate l' ≡ drop 4 (concatenate two_buffers))
    × AreValid l'
unfolding list_size
list_remove_prefix_lem_example = list_remove_prefix_lem two_buffers 4 (omega arith) (omega arith)
