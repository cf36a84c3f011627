-- ===== src/Examples/Datagrams.antt =====
-- Datagrams and checksums at concrete bytes.
use cs144_lab.Base.{[], arith, false, refl, some, true, ◌%◌, ◌+◌, ◌<◌, ◌^◌, ◌∷◌, ◌≡◌}
use cs144_lab.Checksum
use cs144_lab.Checksum.{fold_carry}
use cs144_lab.Checksum.Folding.{fold_carry_lem}
use cs144_lab.Parser
use cs144_lab.Parser.{no_error}
use cs144_lab.Segment.{TcpSegment}
use cs144_lab.Segment.Wire
use cs144_lab.Ipv4.{default_ipv4_header, payload_length, proto_tcp, pseudo_cksum}
use cs144_lab.Ipv4.Datagram.{Ipv4Datagram}
use cs144_lab.TcpOverIp
use cs144_lab.TcpOverIp.{FdAdapter, empty_segment, unwrap_tcp_in_ip, unwrap_tcp_in_ip-some}

-- A SYN from address 1 to address 2, ports 0, with its checksum.
abbrev syn_datagram : Ipv4Datagram
syn_datagram = record {
  header = record default_ipv4_header { src = 1; dst = 2; len = 40 };
  payload = 0 ∷ 0 ∷ 0 ∷ 0 ∷ 0 ∷ 0 ∷ 0 ∷ 0 ∷ 0 ∷ 0 ∷ 0 ∷ 0 ∷ 80 ∷ 2 ∷ 0 ∷ 0 ∷ 175 ∷ 224 ∷ 0 ∷ 0 ∷ [];
}

abbrev syn_segment : TcpSegment
syn_segment = record {
  header = record empty_segment.header { syn = true; cksum = 45024 };
  payload = [];
}

abbrev listener : FdAdapter
listener = record {
  source = record { ipv4_numeric = 0; port = 0 };
  destination = record { ipv4_numeric = 0; port = 0 };
  listening = true;
}

syn_accepted : (unwrap_tcp_in_ip (λ n. n) listener syn_datagram).1 ≡ some syn_segment
unfolding Checksum.value Checksum.add Checksum.new Checksum.add_byte Checksum.fold_carry Parser.new
    Parser.parse_int Parser.check_size Parser.gather Parser.remove_prefix Wire.has_flag
    Wire.parse_header Wire.parse payload_length pseudo_cksum TcpOverIp.accept_segment
    unwrap_tcp_in_ip
syn_accepted = refl

unwrap_tcp_in_ip-some_example :
    let a' = (unwrap_tcp_in_ip (λ n. n) listener syn_datagram).0 in
    (Wire.parse empty_segment syn_datagram.payload (pseudo_cksum syn_datagram.header)
      ≡ (no_error, syn_segment))
    × (syn_datagram.header.proto ≡ proto_tcp)
    × (syn_segment.header.dport ≡ a'.source.port)
    × (syn_segment.header.sport ≡ a'.destination.port)
    × (a'.listening ≡ false)
unwrap_tcp_in_ip-some_example =
    unwrap_tcp_in_ip-some (λ n. n) listener syn_datagram syn_segment syn_accepted

fold_carry_lem_example :
    (fold_carry (2 + 5) 0xffff_fff0 ≡ fold_carry 3 0xffff_fff0)
    × (fold_carry 3 0xffff_fff0 < 2 ^ 16)
    × (fold_carry 3 0xffff_fff0 % 0xffff ≡ 0xffff_fff0 % 0xffff)
fold_carry_lem_example = fold_carry_lem 5 0xffff_fff0 (omega arith)
