-- ===== src/Ipv4/Fields.antt =====
-- libsponge/tcp_helpers/ipv4_header.cc: the bytes that `IPv4Header::serialize` writes, and the fields
-- that are read from them.
use Prim.Native.Nat.{bit_and, bit_or}
use cs144_lab.Base.{
  Bool, List, [], ap, arith, false, length, length-append, ltb, not, refl, some, suc, sym, true,
  zero, ℕ, ◌&&◌, ◌*◌, ◌++◌, ◌+◌, ◌-◌, ◌/◌, ◌<◌, ◌==◌, ◌^◌, ◌∙◌, ◌≡◌, ◌≤◌,
}
use cs144_lab.Segment.Wire.{has_flag, bit}
use cs144_lab.Ipv4.{fragment_word, read_fields, serialize_ipv4_header, Ipv4Header}
use cs144_lab.Parser.{unparse_int}
use cs144_lab.Parser.RoundTrip.{at, u8-unparse, u16-unparse, u32-unparse}
use cs144_lab.Segment.Wire.{resize}
use cs144_lab.Segment.Wire.Padding.{zeros, length-zeros, resize_pad}
use cs144_lab.Ipv4.{read_fields, fragment_word, serialize_ipv4_header}

-- The fields are within the widths of their types, and the version and the length are those that
-- `serialize` accepts and a nibble holds.
pub record IsWellFormed (h : Ipv4Header) : Type 0 where
  pub version : h.ver ≡ 4
  pub hlen_enough : 5 ≤ h.hlen
  pub hlen_small : h.hlen < 16
  pub tos_small : h.tos < 2 ^ 8
  pub len_small : h.len < 2 ^ 16
  pub id_small : h.id < 2 ^ 16
  pub offset_small : h.offset < 2 ^ 13
  pub ttl_small : h.ttl < 2 ^ 8
  pub proto_small : h.proto < 2 ^ 8
  pub cksum_small : h.cksum < 2 ^ 16
  pub src_small : h.src < 2 ^ 32
  pub dst_small : h.dst < 2 ^ 32

module _ (test : ℕ → Bool) where
  -- The test holds at `count` numbers from `start` on.
  passes : ℕ → ℕ → Bool
  passes zero start = true
  passes (suc count) start = elim (test start) [ false ↦ false | true ↦ passes count (start + 1) ]

  passes_at : (count start k : ℕ) → passes count start ≡ true → k < count → test (k + start) ≡ true
  unfolding passes
  passes_at zero start k ok inside = absurd (omega arith)
  passes_at (suc count) start zero ok inside =
      let here : 0 + start ≡ start = omega arith in rw here (ground (arith, ok))
  passes_at (suc count) start (suc k) ok inside =
      let there : suc k + start ≡ k + (start + 1) = omega arith in
      let later : passes count (start + 1) ≡ true = ground (arith, ok) in
      rw there (passes_at count (start + 1) k later (omega arith))

-- A test that holds at each number below a bound.
below : (test : ℕ → Bool) (bound k : ℕ) → passes test bound 0 ≡ true → k < bound → test k ≡ true
below test bound k ok inside =
    let same_number : k ≡ k + 0 = omega arith in
    ap test same_number ∙ passes_at test bound 0 k ok inside

-- The version and the header length share a byte.
abbrev first_byte : ℕ → ℕ
first_byte hlen = bit_or (4 * 2 ^ 4) (bit_and hlen 0xf)

first_byte_test : ℕ → Bool
first_byte_test n =
    (first_byte n / 2 ^ 4 == 4) && ((bit_and (first_byte n) 0x0f == n) && ltb (first_byte n) 256)

first_byte_table : passes first_byte_test 16 0 ≡ true
unfolding passes first_byte_test
first_byte_table = refl

first_byte_lem :
    (n : ℕ)
    → n < 16
    → (first_byte n / 2 ^ 4 ≡ 4) × (bit_and (first_byte n) 0x0f ≡ n) × (first_byte n < 2 ^ 8)
unfolding first_byte_test
first_byte_lem n h = ground (arith, below first_byte_test 16 n first_byte_table h)

-- The two flags and the offset share a word.
abbrev fragments : Bool → Bool → ℕ → ℕ
fragments df mf offset = bit_or (bit_or (bit df 0x4000) (bit mf 0x2000)) (bit_and offset 0x1fff)

same : Bool → Bool → Bool
same true c = c
same false c = not c

fragments_test : Bool → Bool → ℕ → Bool
fragments_test df mf n =
    let w = fragments df mf n in
    same (has_flag w 0x4000) df
    && (same (has_flag w 0x2000) mf && ((bit_and w 0x1fff == n) && ltb w (2 ^ 16)))

fragments_table : (df mf : Bool) → passes (fragments_test df mf) 8192 0 ≡ true
unfolding passes fragments_test same has_flag
fragments_table true true = refl
fragments_table true false = refl
fragments_table false true = refl
fragments_table false false = refl

fragments_lem :
    (df mf : Bool) (n : ℕ)
    → n < 2 ^ 13
    → let w = fragments df mf n in
      (has_flag w 0x4000 ≡ df) × (has_flag w 0x2000 ≡ mf) × (bit_and w 0x1fff ≡ n) × (w < 2 ^ 16)
unfolding fragments_test same
fragments_lem df mf n h =
    ground (arith, below (fragments_test df mf) 8192 n (fragments_table df mf) h)

abbrev pub ipv4_fields : Ipv4Header → List ℕ → List ℕ
ipv4_fields h tail =
    unparse_int 1 (first_byte h.hlen)
    ++ (unparse_int 1 h.tos
        ++ (unparse_int 2 h.len
            ++ (unparse_int 2 h.id
                ++ (unparse_int 2 (fragments h.df h.mf h.offset)
                    ++ (unparse_int 1 h.ttl
                        ++ (unparse_int 1 h.proto
                            ++ (unparse_int 2 h.cksum
                                ++ (unparse_int 4 h.src ++ (unparse_int 4 h.dst ++ tail)))))))))

pub ipv4_fields_append :
    (h : Ipv4Header) (xs ys : List ℕ) → ipv4_fields h xs ++ ys ≡ ipv4_fields h (xs ++ ys)
unfolding unparse_int
ipv4_fields_append h xs ys = refl

length-ipv4_fields : (h : Ipv4Header) → length (ipv4_fields h []) ≡ 20
unfolding unparse_int
length-ipv4_fields h = refl

-- A header as bytes: the fields, padded with zeros to the advertised length.
abbrev pub ipv4_bytes : Ipv4Header → List ℕ
ipv4_bytes h = ipv4_fields h (zeros (4 * h.hlen - 20))

pub length-ipv4_bytes : (h : Ipv4Header) → 5 ≤ h.hlen → length (ipv4_bytes h) ≡ 4 * h.hlen
length-ipv4_bytes h w =
    ap length (sym (ipv4_fields_append h [] (zeros (4 * h.hlen - 20))))
    ∙ length-append (ipv4_fields h []) (zeros (4 * h.hlen - 20))
    ∙ omega (arith, length-ipv4_fields h, length-zeros (4 * h.hlen - 20), w)

one_byte :
    (h : Ipv4Header)
    → IsWellFormed h
    → bit_or (h.ver * 2 ^ 4) (bit_and h.hlen 0xf) ≡ first_byte h.hlen
one_byte h w = ap (λ v. bit_or (v * 2 ^ 4) (bit_and h.hlen 0xf)) w.version

ipv4_fields_nil :
    (h : Ipv4Header)
    → unparse_int 1 (first_byte h.hlen)
        ++ (unparse_int 1 h.tos
            ++ (unparse_int 2 h.len
                ++ (unparse_int 2 h.id
                    ++ (unparse_int 2 (fragments h.df h.mf h.offset)
                        ++ (unparse_int 1 h.ttl
                            ++ (unparse_int 1 h.proto
                                ++ (unparse_int 2 h.cksum
                                    ++ (unparse_int 4 h.src ++ unparse_int 4 h.dst))))))))
      ≡ ipv4_fields h []
unfolding unparse_int
ipv4_fields_nil h = refl

pub serialize_ipv4_bytes :
    (h : Ipv4Header) → IsWellFormed h → serialize_ipv4_header h ≡ some (ipv4_bytes h)
unfolding serialize_ipv4_header fragment_word
serialize_ipv4_bytes h w =
    rw (right_version, not_short, one_byte h w, ipv4_fields_nil h) (ap some padded)
  where
    right_version : (h.ver == 4) ≡ true
    right_version = ground (arith, w.version)

    not_short : ltb (4 * h.hlen) 20 ≡ false
    not_short = ground (arith, w.hlen_enough)

    padded : resize (4 * h.hlen) (ipv4_fields h []) ≡ ipv4_bytes h
    padded =
        resize_pad (4 * h.hlen) (ipv4_fields h [])
          (omega (arith, length-ipv4_fields h, w.hlen_enough))
        ∙ ap (λ k. ipv4_fields h [] ++ zeros (4 * h.hlen - k)) (length-ipv4_fields h)
        ∙ ipv4_fields_append h [] (zeros (4 * h.hlen - 20))

-- The fields that were written are read, whatever follows.
pub read_fields_lem :
    (h : Ipv4Header) (tail : List ℕ)
    → IsWellFormed h
    → read_fields (at (ipv4_fields h tail)) ≡ (h, at tail)
unfolding read_fields
read_fields_lem h tail w =
    let t10 = unparse_int 4 h.dst ++ tail in
    let t9 = unparse_int 4 h.src ++ t10 in
    let t8 = unparse_int 2 h.cksum ++ t9 in
    let t7 = unparse_int 1 h.proto ++ t8 in
    let t6 = unparse_int 1 h.ttl ++ t7 in
    let t5 = unparse_int 2 (fragments h.df h.mf h.offset) ++ t6 in
    let t4 = unparse_int 2 h.id ++ t5 in
    let t3 = unparse_int 2 h.len ++ t4 in
    let t2 = unparse_int 1 h.tos ++ t3 in
    let b = first_byte_lem h.hlen w.hlen_small in
    let f = fragments_lem h.df h.mf h.offset w.offset_small in
    rw
      (
        u8-unparse (first_byte h.hlen) t2 b.2,
        u8-unparse h.tos t3 w.tos_small,
        u16-unparse h.len t4 w.len_small,
        u16-unparse h.id t5 w.id_small,
        u16-unparse (fragments h.df h.mf h.offset) t6 f.3,
        u8-unparse h.ttl t7 w.ttl_small,
        u8-unparse h.proto t8 w.proto_small,
        u16-unparse h.cksum t9 w.cksum_small,
        u32-unparse h.src t10 w.src_small,
        u32-unparse h.dst tail w.dst_small,
      )
      (rw (b.0, b.1, f.0, f.1, f.2) (ap (λ v. (record h { ver = v }, at tail)) (sym w.version)))
