-- ===== src/Parser/RoundTrip.antt =====
-- What is written in network byte order is read back.
use cs144_lab.Base.{List, arith, ℕ, ◌++◌, ◌<◌, ◌^◌, ◌≡◌}
use cs144_lab.Parser.{NetParser, no_error, parse_int, unparse_int}

abbrev pub at : List ℕ → NetParser
at bytes = record { buffer = bytes; result = no_error }

pub u8-unparse :
    (val : ℕ) (rest : List ℕ)
    → val < 2 ^ 8
    → parse_int 1 (at (unparse_int 1 val ++ rest)) ≡ (at rest, val)
unfolding parse_int unparse_int
u8-unparse val rest h = ground arith

pub u16-unparse :
    (val : ℕ) (rest : List ℕ)
    → val < 2 ^ 16
    → parse_int 2 (at (unparse_int 2 val ++ rest)) ≡ (at rest, val)
unfolding parse_int unparse_int
u16-unparse val rest h = ground arith

pub u32-unparse :
    (val : ℕ) (rest : List ℕ)
    → val < 2 ^ 32
    → parse_int 4 (at (unparse_int 4 val ++ rest)) ≡ (at rest, val)
unfolding parse_int unparse_int
u32-unparse val rest h = ground arith
