-- ===== src/BeParser.antt =====
-- bedecoder/be_token.hpp and bedecoder/be_parser.cpp: the tokens of a bencoded text. The text is the
-- list of its bytes, and a 0 stands behind it. `set` is SubString::set, from another library: what a
-- token holds of its two arguments.
pub mod Progress
pub mod Balance
pub mod Decimal
pub mod Encoding
use Prim.Native.Nat.{min}
use Prim.Native.String.{String}
use torrent_client.Base.{
  ℕ, zero, suc, ◌+◌, ◌-◌, ◌*◌, ◌^◌, List, [], ◌∷◌, ◌++◌, Bool, true, false, ◌||◌, ◌&&◌, not, ltb,
  leb, ◌==◌, if◌then◌else◌, add64, get_or, drop, length,
}

-- The types of BeToken, but for UNKNOWN, which no token of the parser has.
pub data TokenType : Type 0 where
  int str list_start list_end dict_start dict_end : TokenType

pub record BeToken (D : Type 0) : Type 0 where
  pub type : TokenType
  pub substr : D

abbrev pub start_type : Bool → TokenType
start_type true = list_start
start_type false = dict_start

abbrev pub end_type : Bool → TokenType
end_type true = list_end
end_type false = dict_end

-- How the parser ends: with tokens and the offset behind them, or with an exception.
pub data Parsed (D : Type 0) : Type 0 where
  done : List (BeToken D) → ℕ → Parsed D
  failed : String → Parsed D
  out_of_fuel : Parsed D

abbrev pub is_digit : ℕ → Bool
is_digit c = leb b'0' c && leb c b'9'

abbrev pub is_space : ℕ → Bool
is_space c = (c == 32) || (leb 9 c && leb c 13)

abbrev pub count_digits : List ℕ → ℕ
count_digits [] = 0
count_digits (c ∷ cs) = if is_digit c then suc (count_digits cs) else 0

abbrev pub count_spaces : List ℕ → ℕ
count_spaces [] = 0
count_spaces (c ∷ cs) = if is_space c then suc (count_spaces cs) else 0

abbrev pub count_sign : List ℕ → ℕ
count_sign bytes = if (get_or bytes 0 0 == b'+') || (get_or bytes 0 0 == b'-') then 1 else 0

-- How many bytes strtol reads, with base 10: none where no digit comes.
unfoldable pub strtol_length : List ℕ → ℕ
strtol_length bytes =
    let before = count_spaces bytes + count_sign (drop (count_spaces bytes) bytes) in
    let digits = count_digits (drop before bytes) in if digits == 0 then 0 else before + digits

abbrev pub digits_value : ℕ → List ℕ → ℕ
digits_value acc [] = acc
digits_value acc (c ∷ cs) = if is_digit c then digits_value (acc * 10 + (c - b'0')) cs else acc

-- The value of strtol where the text begins with a digit: at most 2^63 - 1.
unfoldable pub strtol_value : List ℕ → ℕ
strtol_value bytes = min (digits_value 0 bytes) (2 ^ 63 - 1)

module _ {D : Type 0} (set : ℕ → ℕ → D) (source : List ℕ) where
  abbrev pub byte_at : ℕ → ℕ
  byte_at offset = get_or source offset 0

  -- std::copy behind the tokens that are there
  abbrev pub put_before : List (BeToken D) → Parsed D → Parsed D
  put_before tokens (done more offset) = done (tokens ++ more) offset
  put_before tokens (failed e) = failed e
  put_before tokens out_of_fuel = out_of_fuel

  abbrev pub and_then : Parsed D → (ℕ → Parsed D) → Parsed D
  and_then (done tokens offset) k = put_before tokens (k offset)
  and_then (failed e) k = failed e
  and_then out_of_fuel k = out_of_fuel

  -- BeParser::process_integer
  unfoldable pub process_integer : ℕ → Parsed D
  unfolding strtol_length
  process_integer offset =
      let start = offset + 1 in
      let end = start + strtol_length (drop start source) in
      if byte_at end == b'e'
      then done (record { type = int; substr = set start end } ∷ []) (end + 1)
      else failed "invalid integer format"

  -- BeParser::process_string
  unfoldable pub process_string : ℕ → Parsed D
  unfolding strtol_length strtol_value
  process_string offset =
      let delim = offset + strtol_length (drop offset source) in
      let start = delim + 1 in
      let end = add64 start (strtol_value (drop offset source)) in
      if byte_at delim == b':'
      then done (record { type = str; substr = set start end } ∷ []) end
      else failed "invalid string format"

  -- The end of process_struct, behind its loop.
  abbrev pub close_struct : Bool → ℕ → Parsed D → Parsed D
  close_struct is_list offset (done tokens end) =
      done
        (record { type = start_type is_list; substr = set offset 0 }
          ∷ (tokens ++ record { type = end_type is_list; substr = set end 0 } ∷ []))
        (end + 1)
  close_struct is_list offset (failed e) = failed e
  close_struct is_list offset out_of_fuel = out_of_fuel

  -- BeParser::process_struct, with its loop as an argument.
  unfoldable pub process_struct : (ℕ → Parsed D) → ℕ → Bool → Parsed D
  process_struct loop offset is_list = close_struct is_list offset (loop (offset + 1))

  -- The switch of BeParser::parse.
  unfoldable pub parse_value : (ℕ → Parsed D) → ℕ → Parsed D
  unfolding process_integer process_string process_struct
  parse_value loop offset =
      let c = byte_at offset in
      if c == b'i'
      then process_integer offset
      else if is_digit c
      then process_string offset
      else if c == b'l'
      then process_struct loop offset true
      else if c == b'd'
      then process_struct loop offset false
      else failed "invalid be data"

  -- BeParser::parse of a part
  unfoldable pub parse_part : (ℕ → Parsed D) → ℕ → Parsed D
  unfolding parse_value
  parse_part loop offset =
      if ltb offset (length source) then parse_value loop offset else done [] offset

  -- The loop of process_struct, with fuel for its rounds and for the values in it.
  unfoldable pub parse_items : ℕ → ℕ → Parsed D
  unfolding parse_part
  parse_items zero offset = out_of_fuel
  parse_items (suc fuel) offset =
      if ltb offset (length source) && not (byte_at offset == b'e')
      then and_then (parse_part (parse_items fuel) offset) (parse_items fuel)
      else done [] offset

  -- The loop of BeParser::parse over the whole text
  unfoldable pub parse_all : ℕ → ℕ → Parsed D
  unfolding parse_part parse_items
  parse_all zero offset = out_of_fuel
  parse_all (suc fuel) offset =
      if ltb offset (length source)
      then and_then (parse_part (parse_items (length source + 1)) offset) (parse_all fuel)
      else done [] offset

  -- BeParser::parse
  unfoldable pub parse : Parsed D
  unfolding parse_all
  parse = parse_all (length source + 1) 0
