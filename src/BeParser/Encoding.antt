-- ===== src/BeParser/Encoding.antt =====
-- The bencoding of values, with the tokens that it stands for: the format that
-- bedecoder/be_parser.cpp reads.
pub mod RoundTrip
pub mod Texts
use torrent_client.Base.{
  ℕ, zero, suc, ◌+◌, ◌-◌, ◌^◌, ◌≤◌, ◌<◌, ◌≡◌, refl, sym, ap, subst, ◌∙◌, inl, inr, Bytes, to_string,
  List, [], ◌∷◌, ◌++◌, append_assoc, append-nil, Bool, true, false, ◌&&◌, not, ltb, ltb→lt, lt→ltb,
  ltb→ge, ge→ltb, ◌==◌, Bool-cases, if◌then◌else◌, add64, get_or, drop, length, length-append,
  length-drop, drop-length-append, drop-drop, arith,
}
use torrent_client.BeParser.{
  BeToken, TokenType, int, str, start_type, end_type, Parsed, done, failed, out_of_fuel, is_digit,
  strtol_length, strtol_value, byte_at, put_before, and_then, process_integer, process_string,
  close_struct, process_struct, parse_value, parse_part, parse_items, parse_all, parse,
}
use torrent_client.BeParser.Progress.{parse_all-step}
use torrent_client.BeParser.Decimal.{
  strtol_length-to_string, strtol_value-to_string, to_string-digit,
}

mutual
  -- A value: a number of at most twenty digits, a string, a list (true) or a dictionary (false), with the
  -- keys of a dictionary in front of their values.
  pub data Value : Type 0 where
    number : ℕ → Value
    text : Bytes → Value
    struct : Bool → Values → Value

  pub data Values : Type 0 where
    nil : Values
    cons : Value → Values → Values

abbrev pub start_byte : Bool → ℕ
start_byte true = b'l'
start_byte false = b'd'

abbrev mutual
  pub encode : Value → Bytes
  encode (number n) = b'i' ∷ (to_string n ++ b'e' ∷ [])
  encode (text s) = to_string (length s) ++ b':' ∷ s
  encode (struct is_list values) = start_byte is_list ∷ (encode_all values ++ b'e' ∷ [])

  pub encode_all : Values → Bytes
  encode_all nil = []
  encode_all (cons v values) = encode v ++ encode_all values

false-ne : true ≡ false → ⊥
false-ne h = cc

begins :
    (bytes : Bytes)
    → is_digit (get_or bytes 0 0) ≡ true
    → (c : ℕ) × ((more : Bytes) × ((bytes ≡ c ∷ more) × ((c == b'e') ≡ false)))
begins [] h = absurd (false-ne (sym h))
begins (c ∷ bytes) h = (c, (bytes, (refl, ground arith)))

pub text-digit : (s rest : Bytes) → is_digit (get_or (encode (text s) ++ rest) 0 0) ≡ true
text-digit s rest =
    rw (append_assoc (to_string (length s)) (b':' ∷ s) rest)
      (to_string-digit (length s) (b':' ∷ (s ++ rest)))

pub encode-length : (v : Value) → 0 < length (encode v)
encode-length (number n) = omega arith
encode-length (text s) = omega (arith, length-append (to_string (length s)) (b':' ∷ s))
encode-length (struct is_list values) = omega arith

-- The first byte of a value, which ends no list.
pub encode-first :
    (v : Value) (rest : Bytes)
    → (c : ℕ) × ((more : Bytes) × ((encode v ++ rest ≡ c ∷ more) × ((c == b'e') ≡ false)))
encode-first (number n) rest = (b'i', (_, (refl, refl)))
encode-first (struct true values) rest = (b'l', (_, (refl, refl)))
encode-first (struct false values) rest = (b'd', (_, (refl, refl)))
encode-first (text s) rest = begins (encode (text s) ++ rest) (text-digit s rest)

module _ {D : Type 0} (set : ℕ → ℕ → D) where
  abbrev pub token : TokenType → ℕ → ℕ → BeToken D
  token type from to = record { type = type; substr = set from to }

  -- The tokens of a value that stands at an offset of a text
  abbrev mutual
    pub tokens : ℕ → Value → List (BeToken D)
    tokens o (number n) = token int (o + 1) (o + 1 + length (to_string n)) ∷ []
    tokens o (text s) =
        let start = o + length (to_string (length s)) + 1 in token str start (start + length s) ∷ []
    tokens o (struct is_list values) =
        token (start_type is_list) o 0
        ∷ (all_tokens (o + 1) values
            ++ token (end_type is_list) (o + 1 + length (encode_all values)) 0 ∷ [])

    pub all_tokens : ℕ → Values → List (BeToken D)
    all_tokens o nil = []
    all_tokens o (cons v values) = tokens o v ++ all_tokens (o + length (encode v)) values
