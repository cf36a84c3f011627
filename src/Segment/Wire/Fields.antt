-- ===== src/Segment/Wire/Fields.antt =====
-- libsponge/tcp_helpers/tcp_header.cc: the bytes that `TCPHeader::serialize` writes.
use cs144_lab.Base.{
  List, [], ap, arith, false, length, ltb, refl, some, ℕ, ◌*◌, ◌++◌, ◌-◌, ◌<◌, ◌^◌, ◌∙◌, ◌≡◌, ◌≤◌,
}
use cs144_lab.Parser.{unparse_int}
use cs144_lab.Segment.{TcpHeader}
use cs144_lab.Segment.Wire.{flags_byte, serialize_header, resize}
use cs144_lab.Segment.Wire.Padding.{zeros, resize_pad}

-- The fields are within the widths of their types, and `doff` is one that `serialize` accepts.
pub record IsWellFormed (h : TcpHeader) : Type 0 where
  pub sport_small : h.sport < 2 ^ 16
  pub dport_small : h.dport < 2 ^ 16
  pub seqno_small : h.seqno < 2 ^ 32
  pub ackno_small : h.ackno < 2 ^ 32
  pub doff_small : h.doff < 16
  pub doff_enough : 5 ≤ h.doff
  pub win_small : h.win < 2 ^ 16
  pub cksum_small : h.cksum < 2 ^ 16
  pub uptr_small : h.uptr < 2 ^ 16

abbrev pub fields : TcpHeader → List ℕ → List ℕ
fields h tail =
    unparse_int 2 h.sport
    ++ (unparse_int 2 h.dport
        ++ (unparse_int 4 h.seqno
            ++ (unparse_int 4 h.ackno
                ++ (unparse_int 1 (h.doff * 2 ^ 4)
                    ++ (unparse_int 1 (flags_byte h)
                        ++ (unparse_int 2 h.win
                            ++ (unparse_int 2 h.cksum ++ (unparse_int 2 h.uptr ++ tail))))))))

pub fields_append : (h : TcpHeader) (xs ys : List ℕ) → fields h xs ++ ys ≡ fields h (xs ++ ys)
unfolding unparse_int
fields_append h xs ys = refl

fields_nil :
    (h : TcpHeader)
    → unparse_int 2 h.sport
        ++ (unparse_int 2 h.dport
            ++ (unparse_int 4 h.seqno
                ++ (unparse_int 4 h.ackno
                    ++ (unparse_int 1 (h.doff * 2 ^ 4)
                        ++ (unparse_int 1 (flags_byte h)
                            ++ (unparse_int 2 h.win
                                ++ (unparse_int 2 h.cksum ++ unparse_int 2 h.uptr)))))))
      ≡ fields h []
unfolding unparse_int
fields_nil h = refl

pub length-fields : (h : TcpHeader) → length (fields h []) ≡ 20
unfolding unparse_int
length-fields h = refl

-- `serialize` gives the fields, padded with zeros to the advertised length.
pub serialize_fields :
    (h : TcpHeader)
    → IsWellFormed h
    → serialize_header h ≡ some (fields h (zeros (4 * h.doff - 20)))
unfolding serialize_header
serialize_fields h w = rw (not_short, fields_nil h) (ap some padded)
  where
    not_short : ltb h.doff 5 ≡ false
    not_short = ground (arith, w.doff_enough)

    room : length (fields h []) ≤ 4 * h.doff
    room = omega (arith, length-fields h, w.doff_enough)

    padded : resize (4 * h.doff) (fields h []) ≡ fields h (zeros (4 * h.doff - 20))
    padded =
        resize_pad (4 * h.doff) (fields h []) room
        ∙ ap (λ k. fields h [] ++ zeros (4 * h.doff - k)) (length-fields h)
        ∙ fields_append h [] (zeros (4 * h.doff - 20))
