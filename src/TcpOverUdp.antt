-- ===== src/TcpOverUdp.antt =====
-- libsponge/tcp_helpers/fd_adapter.{hh,cc} and lossy_fd_adapter.hh: segments as the payloads of UDP
-- datagrams, and an adapter that drops some of them. The socket and the random numbers are arguments.
use cs144_lab.Base.{
  Bool, List, Option, arith, false, if◌then◌else◌, length, ltb, none, not, some, true, ℕ, ◌%◌, ◌&&◌,
  ◌*◌, ◌+◌, ◌<◌, ◌==◌, ◌^◌, ◌≡◌,
}
use cs144_lab.Parser.{no_error}
use cs144_lab.Segment.{TcpSegment}
use cs144_lab.Segment.Wire
use cs144_lab.Segment.Wire.SegmentRoundTrip.{parse-serialize}
use cs144_lab.TcpOverIp.{Endpoint, FdAdapter, empty_segment}
use cs144_lab.TcpOverIp.RoundTrip.{IsConfigured, addressed}

-- `Address::operator==`, of two IPv4 addresses.
abbrev pub same_address : Endpoint → Endpoint → Bool
same_address a b = a.ipv4_numeric == b.ipv4_numeric && a.port == b.port

-- `TCPOverUDPSocketAdapter::read` of a datagram with its source address.
unfoldable pub udp_read : FdAdapter → Endpoint → List ℕ → FdAdapter × Option TcpSegment
udp_read a from payload =
    if not a.listening && not (same_address from a.destination)
    then (a, none)
    else let (result, seg) = Wire.parse empty_segment payload 0 in
      elim result [ no_error ↦ accept a from seg | _ ↦ (a, none) ]
  where
    accept : FdAdapter → Endpoint → TcpSegment → FdAdapter × Option TcpSegment
    accept a from seg =
        if a.listening
        then (if seg.header.syn && not seg.header.rst
            then (record a { destination = from; listening = false }, some seg)
            else (a, none))
        else (a, some seg)

-- `TCPOverUDPSocketAdapter::write`: the segment after it, and what is sent to which address; `none`
-- is an exception.
unfoldable pub udp_write : FdAdapter → TcpSegment → Option (TcpSegment × Endpoint × List ℕ)
udp_write a seg =
    let seg' : TcpSegment = record seg {
      header = record seg.header { sport = a.source.port; dport = a.destination.port };
    } in
    elim (Wire.serialize seg' 0) [ none ↦ none | some bytes ↦ some (seg', a.destination, bytes) ]

-- When `read` returns a segment, it is the one that the payload parses to without error, it came from
-- the destination of the adapter after the call, that does not listen, and an adapter that listened was
-- given a SYN without a RST.
pub udp_read-some :
    (a : FdAdapter) (from : Endpoint) (payload : List ℕ) (seg : TcpSegment)
    → (udp_read a from payload).1 ≡ some seg
    → let a' = (udp_read a from payload).0 in
      (Wire.parse empty_segment payload 0 ≡ (no_error, seg))
      × (same_address from a'.destination ≡ true)
      × (a'.listening ≡ false)
      × ((a.listening && not (seg.header.syn && not seg.header.rst)) ≡ false)
unfolding udp_read
udp_read-some a from payload seg h = ground arith

-- For an adapter whose addresses fit 32 and whose ports 16 bits, a segment whose fields (the
-- checksum aside) fit their widths, with a data offset of at least 5 and less than 2 ^ 16 bytes,
-- and a second adapter that does not listen, `write` of the first sends bytes to its destination
-- from which `read` of the second, if they come from its own destination, returns the segment, with
-- the ports of the first and some checksum.
pub udp_read-udp_write :
    (a b : FdAdapter) (from : Endpoint) (seg : TcpSegment)
    → IsConfigured a
    → Wire.Fields.IsWellFormed (record seg.header { cksum = 0 })
    → 4 * seg.header.doff + length seg.payload < 2 ^ 16
    → b.listening ≡ false
    → same_address from b.destination ≡ true
    → (bytes : List ℕ) × (k : ℕ) × (udp_write a seg ≡ some (addressed a seg, a.destination, bytes))
      × (udp_read b from bytes ≡ (
        b,
        some (record (addressed a seg) { header = record (addressed a seg).header { cksum = k } }),
      ))
unfolding udp_write udp_read
udp_read-udp_write a b from seg c w short connected known =
    let sent = addressed a seg in
    let w' : Wire.Fields.IsWellFormed (record sent.header { cksum = 0 }) = ground (arith, w, c) in
    let (bytes, k, made, size, parsed) =
      parse-serialize sent empty_segment 0 w' (omega arith) short in
    (bytes, k, ground (arith, made), ground (arith, parsed, connected, known))

-- `LossyFdAdapter`: `loss_up` and `loss_down` are its rates, `next` the generator of random numbers.
module _ {R : Type 0} (next : R → R × ℕ) (loss_up loss_down : ℕ) where
  unfoldable pub should_drop : Bool → R → R × Bool
  should_drop uplink r =
      let loss = if uplink then loss_up else loss_down in
      if loss == 0 then (r, false) else let (r', n) = next r in (r', ltb (n % 2 ^ 16) loss)

  -- `read`, after that of the adapter, which gave `got`.
  unfoldable pub lossy_read : R → Option TcpSegment → R × Option TcpSegment
  unfolding should_drop
  lossy_read r got = let (r', dropped) = should_drop false r in (r', if dropped then none else got)

  -- `write` calls that of the adapter only if it does not drop the segment.
  unfoldable pub lossy_write : {A : Type 0} → (A → TcpSegment → A) → R → A → TcpSegment → R × A
  unfolding should_drop
  lossy_write write r a seg =
      let (r', dropped) = should_drop true r in (r', if dropped then a else write a seg)
