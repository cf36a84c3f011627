-- ===== src/Parser.antt =====
-- libsponge/util/parser.{hh,cc}: integers in network byte order, read and written.
pub mod RoundTrip
use cs144_lab.Base.{
  Bool, List, [], drop, false, if◌then◌else◌, length, ltb, suc, true, zero, ℕ, ◌%◌, ◌*◌, ◌+◌, ◌/◌,
  ◌^◌, ◌∷◌,
}

-- `enum class ParseResult`
pub data ParseResult : Type 0 where
  no_error bad_checksum packet_too_short wrong_ip_version header_too_short truncated_packet
        unsupported :
      ParseResult

-- `class NetParser`; the buffer is the bytes that are left of it.
pub record NetParser : Type 0 where
  pub buffer : List ℕ
  pub result : ParseResult

unfoldable pub new : List ℕ → NetParser
new buffer = record { buffer = buffer; result = no_error }

abbrev pub get_error : NetParser → ParseResult
get_error p = p.result

abbrev pub set_error : NetParser → ParseResult → NetParser
set_error p res = record p { result = res }

abbrev pub error : NetParser → Bool
error p = elim p.result [ no_error ↦ false | _ ↦ true ]

unfoldable pub check_size : NetParser → ℕ → NetParser
check_size p size = if ltb (length p.buffer) size then set_error p packet_too_short else p

-- The loop of `_parse_int` over the next `len` bytes, at a type of `bits` bits.
unfoldable pub gather : ℕ → ℕ → ℕ → List ℕ → ℕ
gather bits zero ret bytes = ret
gather bits (suc len) ret [] = ret
gather bits (suc len) ret (byte ∷ bytes) =
    gather bits len ((ret * 2 ^ 8 % 2 ^ bits + byte % 2 ^ 8) % 2 ^ bits) bytes

-- `_parse_int` at a type of `len` bytes: the parser and the number.
unfoldable pub parse_int : ℕ → NetParser → NetParser × ℕ
unfolding check_size gather
parse_int len p =
    let p' = check_size p len in
    if error p'
    then (p', 0)
    else (record p' { buffer = drop len p'.buffer }, gather (8 * len) len 0 p'.buffer)

abbrev pub u32_of : NetParser → NetParser × ℕ
u32_of p = parse_int 4 p

abbrev pub u16_of : NetParser → NetParser × ℕ
u16_of p = parse_int 2 p

abbrev pub u8_of : NetParser → NetParser × ℕ
u8_of p = parse_int 1 p

unfoldable pub remove_prefix : NetParser → ℕ → NetParser
unfolding check_size
remove_prefix p n =
    let p' = check_size p n in if error p' then p' else record p' { buffer = drop n p'.buffer }

-- `_unparse_int`: the bytes that it appends, most significant first; `len` counts those to come.
unfoldable pub unparse_int : ℕ → ℕ → List ℕ
unparse_int zero val = []
unparse_int (suc len) val = val / 2 ^ (8 * len) % 2 ^ 8 ∷ unparse_int len val

abbrev pub u32_bytes : ℕ → List ℕ
u32_bytes val = unparse_int 4 val

abbrev pub u16_bytes : ℕ → List ℕ
u16_bytes val = unparse_int 2 val

abbrev pub u8_bytes : ℕ → List ℕ
u8_bytes val = unparse_int 1 val
