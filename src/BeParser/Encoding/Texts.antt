-- ===== src/BeParser/Encoding/Texts.antt =====
-- What the tokens of the bencoding of a value hold: its texts and its numbers.
use torrent_client.Base.{
  ℕ, ◌+◌, ◌-◌, ◌^◌, ◌≤◌, ◌<◌, ◌≡◌, refl, ap, ◌∙◌, Bytes, [], ◌∷◌, ◌++◌, append_assoc, take, drop,
  length, take-length-append, arith,
}
use torrent_client.Base.Decimal.{to_string}
use torrent_client.BeParser.Encoding.{
  Value, number, text, struct, Values, nil, cons, start_byte, encode, encode_all,
}
use torrent_client.BeParser.Encoding.RoundTrip.{At, At-behind}
use torrent_client.SubStrings.{SubStrings}

module _ (ss : SubStrings)
    (texts : (from to : ℕ) (source : Bytes)
      → from ≤ to
      → ss.str (ss.set from to) source ≡ take (to - from) (drop from source))
    (source : Bytes) (bound : length source < 2 ^ 63) where
  -- The token of a number holds its digits, and that of a string the string, for a value at an offset.
  abbrev mutual
    pub Holds : Value → ℕ → Type 0
    Holds (number n) o = ss.str (ss.set (o + 1) (o + 1 + length (to_string n))) source ≡ to_string n
    Holds (text s) o =
        let start = o + length (to_string (length s)) + 1 in
        ss.str (ss.set start (start + length s)) source ≡ s
    Holds (struct is_list values) o = HoldAll values (o + 1)

    pub HoldAll : Values → ℕ → Type 0
    HoldAll nil o = Unit {0}
    HoldAll (cons v values) o = Holds v o × HoldAll values (o + length (encode v))

  At-text :
      (start : ℕ) (s rest : Bytes)
      → At ss.set source bound start (s ++ rest)
      → ss.str (ss.set start (start + length s)) source ≡ s
  At-text start s rest at =
      texts start (start + length s) source (omega arith)
      ∙ ap (λ k. take k (drop start source))
          (let size : start + length s - start ≡ length s = omega arith in size)
      ∙ ap (take (length s)) at
      ∙ take-length-append s rest

  mutual
    pub encode-Holds :
        (v : Value) (o : ℕ) (rest : Bytes) → At ss.set source bound o (encode v ++ rest) → Holds v o
    encode-Holds (number n) o rest at = At-text (o + 1) (to_string n) (b'e' ∷ rest) (
        At-behind ss.set source bound o (o + 1) (b'i' ∷ []) (to_string n ++ b'e' ∷ rest)
          (at ∙ ap (◌∷◌ b'i') (append_assoc (to_string n) (b'e' ∷ []) rest)) refl)
    encode-Holds (text s) o rest at =
        let digits = to_string (length s) in
        let delim = o + length digits in
        let here = at ∙ append_assoc digits (b':' ∷ s) rest in
        At-text (delim + 1) s rest (
          At-behind ss.set source bound delim (delim + 1) (b':' ∷ []) (s ++ rest)
            (At-behind ss.set source bound o delim digits (b':' ∷ (s ++ rest)) here refl) refl)
    encode-Holds (struct is_list values) o rest at =
        encode_all-HoldAll values (o + 1) (b'e' ∷ rest) (
          At-behind ss.set source bound o (o + 1) (start_byte is_list ∷ [])
            (encode_all values ++ b'e' ∷ rest)
            (at ∙ ap (◌∷◌ (start_byte is_list)) (append_assoc (encode_all values) (b'e' ∷ []) rest))
            refl)

    encode_all-HoldAll :
        (values : Values) (o : ℕ) (rest : Bytes)
        → At ss.set source bound o (encode_all values ++ rest)
        → HoldAll values o
    encode_all-HoldAll nil o rest at = tt
    encode_all-HoldAll (cons v values) o rest at =
        let here = at ∙ append_assoc (encode v) (encode_all values) rest in
        (
          encode-Holds v o (encode_all values ++ rest) here,
          encode_all-HoldAll values (o + length (encode v)) rest (
              At-behind ss.set source bound o (o + length (encode v)) (encode v)
                (encode_all values ++ rest) here refl),
        )
