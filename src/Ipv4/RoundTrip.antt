-- ===== src/Ipv4/RoundTrip.antt =====
-- libsponge/tcp_helpers/ipv4_datagram.cc: a datagram that is serialized has a right header checksum, and
-- is parsed back.
use cs144_lab.Base.{
  List, ap, arith, false, length, length-append, some, sym, take-append, ℕ, ◌*◌, ◌++◌, ◌+◌, ◌-◌,
  ◌<◌, ◌^◌, ◌∙◌, ◌≡◌, ◌≤◌,
}
use cs144_lab.Checksum
use cs144_lab.Checksum.{InternetChecksum}
use cs144_lab.Checksum.Sums.{word_sum, flipped, word_sum-le, add_lem, value_completes, value-lt}
use cs144_lab.Parser
use cs144_lab.Parser.{no_error, unparse_int, remove_prefix}
use cs144_lab.Parser.RoundTrip.{at}
use cs144_lab.Segment.Wire.Padding.{zeros, skip_zeros}
use cs144_lab.Ipv4.{Ipv4Header, parse_ipv4_header, check_fields, payload_length, read_fields}
use cs144_lab.Ipv4.Fields.{
  IsWellFormed, ipv4_fields, ipv4_fields_append, ipv4_bytes, length-ipv4_bytes,
  serialize_ipv4_bytes, read_fields_lem,
}
use cs144_lab.Ipv4.Datagram.{Ipv4Datagram, serialize_datagram, parse_datagram}

abbrev with_cksum : Ipv4Header → ℕ → Ipv4Header
with_cksum h k = record h { cksum = k }

-- The checksum field counts for what it holds.
word_sum-ipv4_fields :
    (h : Ipv4Header) (k : ℕ) (tail : List ℕ)
    → k < 2 ^ 16
    → word_sum false (ipv4_fields (with_cksum h k) tail)
      ≡ word_sum false (ipv4_fields (with_cksum h 0) tail) + k
unfolding word_sum unparse_int
word_sum-ipv4_fields h k tail small = omega arith

-- What is parsed when the fields read say nothing against it.
parse_fields :
    (old h : Ipv4Header) (bytes tail : List ℕ)
    → read_fields (at bytes) ≡ (h, at tail)
    → h.ver ≡ 4
    → 5 ≤ h.hlen
    → 4 * h.hlen ≤ length bytes
    → length bytes ≡ h.len
    → parse_ipv4_header old (at bytes)
      ≡ (let p = remove_prefix (at tail) (h.hlen * 4 - 20) in (check_fields h bytes p, h, p))
unfolding parse_ipv4_header
parse_fields old h bytes tail e v enough reach whole = ground arith

-- The check of the header's checksum.
check_right :
    (h : Ipv4Header) (bytes payload : List ℕ)
    → Checksum.value (Checksum.add (Checksum.new 0) bytes) ≡ 0
    → length bytes ≡ 4 * h.hlen
    → check_fields h (bytes ++ payload) (at payload) ≡ no_error
unfolding check_fields
check_right h bytes payload e n = rw (sym n, take-append bytes payload) (ground arith)

module _ (h : Ipv4Header) (w : IsWellFormed (with_cksum h 0)) where
  abbrev sum : ℕ
  sum = word_sum false (ipv4_bytes (with_cksum h 0))

  sum_small : sum + 65535 < 2 ^ 32
  sum_small = omega (
    arith,
    word_sum-le false (ipv4_bytes (with_cksum h 0)),
    length-ipv4_bytes (with_cksum h 0) w.hlen_enough,
    w.hlen_small,
  )

  -- The checksum that `serialize` computes.
  abbrev ipv4_cksum : ℕ
  ipv4_cksum = Checksum.value (Checksum.add (Checksum.new 0) (ipv4_bytes (with_cksum h 0)))

  summed : InternetChecksum
  summed = record { sum = sum; parity = flipped false (ipv4_bytes (with_cksum h 0)) }

  computed : Checksum.add (Checksum.new 0) (ipv4_bytes (with_cksum h 0)) ≡ summed
  unfolding Checksum.new summed
  computed =
      add_lem (Checksum.new 0) (ipv4_bytes (with_cksum h 0)) (omega (arith, sum_small))
      ∙ ap (λ n. record { sum = n; parity = flipped false (ipv4_bytes (with_cksum h 0)) })
          (omega arith)

  ipv4_cksum-lt : ipv4_cksum < 2 ^ 16
  ipv4_cksum-lt = value-lt (Checksum.add (Checksum.new 0) (ipv4_bytes (with_cksum h 0)))

  right : Checksum.value (Checksum.add (Checksum.new 0) (ipv4_bytes (with_cksum h ipv4_cksum))) ≡ 0
  unfolding Checksum.new summed
  right =
      let b = ipv4_bytes (with_cksum h ipv4_cksum) in
      let more = word_sum-ipv4_fields h ipv4_cksum (zeros (4 * h.hlen - 20)) ipv4_cksum-lt in
      ap Checksum.value (
        add_lem (Checksum.new 0) b (omega (arith, more, sum_small, ipv4_cksum-lt))
        ∙ ap (λ n. record { sum = n; parity = flipped false b })
            (omega arith ∙ more ∙ ap (λ c. sum + Checksum.value c) computed))
      ∙ value_completes sum (flipped false (ipv4_bytes (with_cksum h 0))) (flipped false b)
          sum_small

  abbrev sealed : Ipv4Header
  sealed = with_cksum h ipv4_cksum

  sealed-IsWellFormed : IsWellFormed sealed
  sealed-IsWellFormed = omega (arith, w, ipv4_cksum-lt)

  -- The header of a packet of the right length is read back, and stops in front of the payload.
  parsed :
      (old : Ipv4Header) (payload : List ℕ)
      → 4 * h.hlen + length payload ≡ h.len
      → parse_ipv4_header old (at (ipv4_bytes sealed ++ payload)) ≡ (no_error, sealed, at payload)
  parsed old payload whole =
      let zz = zeros (4 * h.hlen - 20) in
      let bytes = ipv4_bytes sealed ++ payload in
      let size : length bytes ≡ 4 * h.hlen + length payload =
        length-append (ipv4_bytes sealed) payload
        ∙ ap (λ n. n + length payload) (length-ipv4_bytes sealed w.hlen_enough) in
      parse_fields old sealed bytes (zz ++ payload)
        (ap (λ t. read_fields (at t)) (ipv4_fields_append sealed zz payload)
          ∙ read_fields_lem sealed (zz ++ payload) sealed-IsWellFormed)
        w.version w.hlen_enough (omega (arith, size)) (size ∙ whole)
      ∙ ap (λ p. (check_fields sealed bytes p, sealed, p))
          (ap (remove_prefix (at (zz ++ payload))) (omega arith)
            ∙ skip_zeros (4 * h.hlen - 20) payload)
      ∙ ap (λ r. (r, sealed, at payload))
          (check_right sealed (ipv4_bytes sealed) payload right
            (length-ipv4_bytes sealed w.hlen_enough))

payload_fits :
    (d : Ipv4Datagram)
    → IsWellFormed (record d.header { cksum = 0 })
    → 4 * d.header.hlen + length d.payload ≡ d.header.len
    → length d.payload ≡ payload_length d.header
unfolding payload_length
payload_fits d w whole = omega (arith, w)

serialized :
    (d : Ipv4Datagram) (w : IsWellFormed (record d.header { cksum = 0 }))
    → 4 * d.header.hlen + length d.payload ≡ d.header.len
    → serialize_datagram d ≡ some (ipv4_bytes (sealed d.header w) ++ d.payload)
unfolding serialize_datagram
serialized d w whole = ground (
  arith,
  payload_fits d w whole,
  serialize_ipv4_bytes (with_cksum d.header 0) w,
  serialize_ipv4_bytes (sealed d.header w) (sealed-IsWellFormed d.header w),
)

datagram_parsed :
    (d old : Ipv4Datagram) (w : IsWellFormed (record d.header { cksum = 0 }))
    → 4 * d.header.hlen + length d.payload ≡ d.header.len
    → parse_datagram old (ipv4_bytes (sealed d.header w) ++ d.payload)
      ≡ (no_error, record d { header = sealed d.header w })
unfolding parse_datagram Parser.new payload_length
datagram_parsed d old w whole =
    rw (parsed d.header w old.header d.payload whole) (ground (arith, payload_fits d w whole))

-- A datagram of version 4 whose fields (the checksum aside) fit their widths, with a header length
-- of at least 5 and a total length that is that of its header and payload, is serialized to bytes
-- from which both parsers read it back without error, but for the checksum in its header.
pub parse_datagram-serialize_datagram :
    (d old : Ipv4Datagram)
    → IsWellFormed (record d.header { cksum = 0 })
    → 4 * d.header.hlen + length d.payload ≡ d.header.len
    → (bytes : List ℕ) × (k : ℕ) × (serialize_datagram d ≡ some bytes)
      × (parse_ipv4_header old.header (Parser.new bytes)
          ≡ (no_error, record d.header { cksum = k }, Parser.new d.payload))
      × (parse_datagram old bytes ≡ (no_error, record d { header = record d.header { cksum = k } }))
parse_datagram-serialize_datagram d old w whole =
    let h = d.header in
    let bytes = ipv4_bytes (sealed h w) ++ d.payload in
    let room : length d.payload ≡ payload_length d.header = payload_fits d w whole in
    (
      bytes,
      ipv4_cksum h w,
      serialized d w whole,
      unfold Parser.new in parsed h w old.header d.payload whole,
      datagram_parsed d old w whole,
    )
