-- ===== src/Segment/Wire/SegmentRoundTrip.antt =====
-- libsponge/tcp_helpers/tcp_segment.cc: a segment that is serialized has a right checksum, and is
-- parsed back.
use cs144_lab.Base.{
  List, ap, arith, false, length, length-append, some, sym, ℕ, ◌*◌, ◌++◌, ◌+◌, ◌-◌, ◌<◌, ◌^◌, ◌∙◌,
  ◌≡◌,
}
use cs144_lab.Checksum
use cs144_lab.Checksum.{InternetChecksum}
use cs144_lab.Checksum.Sums.{
  word_sum, flipped, word_sum-le, add_lem, add-append, value_completes, value-lt,
}
use cs144_lab.Parser
use cs144_lab.Parser.{no_error, unparse_int}
use cs144_lab.Segment.{TcpHeader, TcpSegment}
use cs144_lab.Segment.Wire.{serialize, parse, flags_byte}
use cs144_lab.Segment.Wire.Padding.{zeros}
use cs144_lab.Segment.Wire.Fields.{IsWellFormed, fields, fields_append, serialize_fields}
use cs144_lab.Segment.Wire.HeaderRoundTrip.{parse_serialized, length-serialized}

abbrev with_cksum : TcpHeader → ℕ → TcpHeader
with_cksum h k = record h { cksum = k }

-- The checksum field counts for what it holds.
word_sum-fields :
    (h : TcpHeader) (k : ℕ) (tail : List ℕ)
    → k < 2 ^ 16
    → word_sum false (fields (with_cksum h k) tail)
      ≡ word_sum false (fields (with_cksum h 0) tail) + k
unfolding word_sum unparse_int flags_byte
word_sum-fields h k tail small = omega arith

module _ (seg : TcpSegment) (initial : ℕ) (w : IsWellFormed (with_cksum seg.header 0))
    (low : initial < 2 ^ 23) (short : 4 * seg.header.doff + length seg.payload < 2 ^ 16) where
  -- The bytes with `k` for a checksum.
  abbrev header_bytes : ℕ → List ℕ
  header_bytes k = fields (with_cksum seg.header k) (zeros (4 * seg.header.doff - 20))

  abbrev all_bytes : ℕ → List ℕ
  all_bytes k = header_bytes k ++ seg.payload

  abbrev sum : ℕ
  sum = initial + word_sum false (all_bytes 0)

  sum_small : sum + 65535 < 2 ^ 32
  sum_small = omega (
    arith,
    word_sum-le false (all_bytes 0),
    length-append (header_bytes 0) seg.payload,
    length-serialized (with_cksum seg.header 0) w.doff_enough,
  )

  abbrev summed : ℕ → InternetChecksum
  summed n = record { sum = n; parity = flipped false (all_bytes 0) }

  abbrev cksum : ℕ
  cksum = Checksum.value (summed sum)

  computed :
      Checksum.add (Checksum.add (Checksum.new initial) (header_bytes 0)) seg.payload ≡ summed sum
  unfolding Checksum.new
  computed =
      sym (add-append (Checksum.new initial) (header_bytes 0) seg.payload)
      ∙ add_lem (Checksum.new initial) (all_bytes 0) (omega (arith, sum_small))

  word_sum-all_bytes : word_sum false (all_bytes cksum) ≡ word_sum false (all_bytes 0) + cksum
  word_sum-all_bytes =
      ap (word_sum false)
        (fields_append (with_cksum seg.header cksum) (zeros (4 * seg.header.doff - 20)) seg.payload)
      ∙ word_sum-fields seg.header cksum (zeros (4 * seg.header.doff - 20) ++ seg.payload)
          (value-lt (summed sum))
      ∙ ap (λ t. word_sum false t + cksum)
          (sym (
            fields_append (with_cksum seg.header 0) (zeros (4 * seg.header.doff - 20)) seg.payload))

  right : Checksum.value (Checksum.add (Checksum.new initial) (all_bytes cksum)) ≡ 0
  unfolding Checksum.new
  right =
      ap Checksum.value (
        add_lem (Checksum.new initial) (all_bytes cksum)
          (omega (arith, word_sum-all_bytes, sum_small, value-lt (summed sum)))
        ∙ ap (λ n. record { sum = n; parity = flipped false (all_bytes cksum) })
            (omega (arith, word_sum-all_bytes)))
      ∙ value_completes sum (flipped false (all_bytes 0)) (flipped false (all_bytes cksum))
          sum_small

  cksum-IsWellFormed : IsWellFormed (with_cksum seg.header cksum)
  cksum-IsWellFormed = omega (arith, w, value-lt (summed sum))

  serialized : serialize seg initial ≡ some (all_bytes cksum)
  unfolding serialize
  serialized = ground (
    arith,
    serialize_fields (with_cksum seg.header 0) w,
    computed,
    serialize_fields (with_cksum seg.header cksum) cksum-IsWellFormed,
  )

  parsed :
      (old : TcpSegment)
      → parse old (all_bytes cksum) initial
        ≡ (no_error, record seg { header = with_cksum seg.header cksum })
  unfolding parse Parser.new
  parsed old =
      rw (right, parse_serialized (with_cksum seg.header cksum) seg.payload cksum-IsWellFormed)

-- A segment whose fields (the checksum aside) fit their widths, with a data offset of at least 5
-- and less than 2 ^ 16 bytes, is serialized, under a checksum of the pseudo-header below 2 ^ 23, to
-- as many bytes as the offset and the payload say, from which `parse` under the same checksum reads
-- the segment back without error, but for the checksum in its header.
pub parse-serialize :
    (seg old : TcpSegment) (initial : ℕ)
    → IsWellFormed (record seg.header { cksum = 0 })
    → initial < 2 ^ 23
    → 4 * seg.header.doff + length seg.payload < 2 ^ 16
    → (bytes : List ℕ) × (k : ℕ) × (serialize seg initial ≡ some bytes)
      × (length bytes ≡ 4 * seg.header.doff + length seg.payload)
      × (parse old bytes initial
          ≡ (no_error, record seg { header = record seg.header { cksum = k } }))
parse-serialize seg old initial w low short = (
  all_bytes seg initial w low short (cksum seg initial w low short),
  cksum seg initial w low short,
  serialized seg initial w low short,
  omega (
    arith,
    length-append (header_bytes seg initial w low short (cksum seg initial w low short))
        seg.payload,
    length-serialized (with_cksum seg.header (cksum seg initial w low short)) w.doff_enough,
  ),
  parsed seg initial w low short old,
)
