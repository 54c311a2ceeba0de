-- ===== src/BeParser/Encoding/RoundTrip.antt =====
-- The parser of bedecoder/be_parser.cpp on the bencoding of a value.
use torrent_client.Base.{
  ℕ, zero, suc, ◌+◌, ◌-◌, ◌^◌, ◌≤◌, ◌<◌, ◌≡◌, refl, sym, ap, ◌∙◌, Bytes, to_string, [], ◌∷◌, ◌++◌,
  append_assoc, append-nil, Bool, true, false, not, ltb, lt→ltb, ge→ltb, ◌==◌, if◌then◌else◌, add64,
  get_or, drop, length, length-append, length-drop, drop-length-append, drop-drop, arith,
}
use torrent_client.BeParser.{
  Parsed, done, failed, is_digit, byte_at, put_before, and_then, process_integer, process_string,
  close_struct, process_struct, parse_value, parse_part, parse_items, parse_all, parse,
}
use torrent_client.BeParser.Progress.{parse_all-step}
use torrent_client.BeParser.Decimal.{strtol_length-to_string, strtol_value-to_string}
use torrent_client.BeParser.Encoding.{
  Value, number, text, struct, Values, nil, cons, start_byte, encode, encode_all, tokens,
  all_tokens, encode-length, encode-first, text-digit,
}

module _ {D : Type 0} (set : ℕ → ℕ → D) (source : Bytes) (bound : length source < 2 ^ 63) where
  get_or-drop : (xs : Bytes) (o : ℕ) → get_or xs o 0 ≡ get_or (drop o xs) 0 0
  get_or-drop [] zero = refl
  get_or-drop [] (suc o) = refl
  get_or-drop (x ∷ xs) zero = refl
  get_or-drop (x ∷ xs) (suc o) = get_or-drop xs o

  -- What stands in the text from an offset on
  abbrev pub At : ℕ → Bytes → Type 0
  At o bytes = drop o source ≡ bytes

  At-byte : (o : ℕ) (bytes : Bytes) → At o bytes → byte_at set source o ≡ get_or bytes 0 0
  At-byte o bytes at = get_or-drop source o ∙ ap (λ b. get_or b 0 0) at

  At-length : (o : ℕ) (bytes : Bytes) → At o bytes → length source - o ≡ length bytes
  At-length o bytes at = sym (length-drop o source) ∙ ap length at

  pub At-behind : (o k : ℕ) (xs ys : Bytes) → At o (xs ++ ys) → k ≡ o + length xs → At k ys
  At-behind o k xs ys at e =
      rw e
        (sym (drop-drop (length xs) o source) ∙ ap (drop (length xs)) at ∙ drop-length-append xs ys)

  process_integer-encode :
      (o n : ℕ) (rest : Bytes)
      → At o (encode (number n) ++ rest)
      → process_integer set source o
        ≡ done (tokens set o (number n)) (o + length (encode (number n)))
  unfolding process_integer
  process_integer-encode o n rest at =
      let digits = to_string n in
      let inside : At (o + 1) (digits ++ b'e' ∷ rest) =
        At-behind o (o + 1) (b'i' ∷ []) (digits ++ b'e' ∷ rest)
          (at ∙ ap (◌∷◌ b'i') (append_assoc digits (b'e' ∷ []) rest)) refl in
      let end = o + 1 + length digits in
      let behind : At end (b'e' ∷ rest) = At-behind (o + 1) end digits (b'e' ∷ rest) inside refl in
      rw (inside, strtol_length-to_string n b'e' rest refl, At-byte end (b'e' ∷ rest) behind)
        (ap (done (tokens set o (number n))) (omega (arith, length-append digits (b'e' ∷ []))))

  process_string-encode :
      (o : ℕ) (s rest : Bytes)
      → At o (encode (text s) ++ rest)
      → process_string set source o ≡ done (tokens set o (text s)) (o + length (encode (text s)))
  unfolding process_string
  process_string-encode o s rest at =
      let digits = to_string (length s) in
      let here : At o (digits ++ b':' ∷ (s ++ rest)) = at ∙ append_assoc digits (b':' ∷ s) rest in
      let delim = o + length digits in
      let behind : At delim (b':' ∷ (s ++ rest)) =
        At-behind o delim digits (b':' ∷ (s ++ rest)) here refl in
      let fits : length s < 2 ^ 63 =
        omega (arith, At-length delim _ behind, length-append s rest, bound) in
      let end : add64 (delim + 1) (length s) ≡ delim + 1 + length s =
        omega (arith, At-length delim _ behind, length-append s rest, bound) in
      rw
        (
          here,
          strtol_length-to_string (length s) b':' (s ++ rest) refl,
          strtol_value-to_string (length s) b':' (s ++ rest) refl fits,
          At-byte delim (b':' ∷ (s ++ rest)) behind,
          end,
        )
        (ap (done (tokens set o (text s))) (omega (arith, length-append digits (b':' ∷ s))))

  At-inside : (o : ℕ) (bytes : Bytes) → At o bytes → 0 < length bytes → ltb o (length source) ≡ true
  At-inside o bytes at some_bytes = lt→ltb o (length source) (omega (arith, At-length o bytes at))

  -- The switch of the parser at the first byte of a value
  parse_part-value :
      (loop : ℕ → Parsed D) (o c : ℕ) (bytes : Bytes)
      → At o (c ∷ bytes)
      → parse_part set source loop o ≡ (
          if c == b'i'
          then process_integer set source o
          else if is_digit c
          then process_string set source o
          else if c == b'l'
          then process_struct set source loop o true
          else if c == b'd'
          then process_struct set source loop o false
          else failed "invalid be data")
  unfolding parse_part parse_value
  parse_part-value loop o c bytes at =
      ap (λ b. if b then parse_value set source loop o else done [] o)
        (At-inside o (c ∷ bytes) at (omega arith))
      ∙ ap
          (λ b.
            if b == b'i'
            then process_integer set source o
            else if is_digit b
            then process_string set source o
            else if b == b'l'
            then process_struct set source loop o true
            else if b == b'd'
            then process_struct set source loop o false
            else failed "invalid be data")
          (At-byte o (c ∷ bytes) at)

  digit_is_text : (c : ℕ) → is_digit c ≡ true → (c == b'i') ≡ false
  digit_is_text c h = ground arith

  parse_part-text :
      (loop : ℕ → Parsed D) (o : ℕ) (bytes : Bytes)
      → At o bytes
      → is_digit (get_or bytes 0 0) ≡ true
      → parse_part set source loop o ≡ process_string set source o
  parse_part-text loop o [] at h = absurd (cc)
  parse_part-text loop o (c ∷ bytes) at h =
      parse_part-value loop o c bytes at ∙ rw (digit_is_text c h, h) refl

  parse_part-struct :
      (loop : ℕ → Parsed D) (o : ℕ) (is_list : Bool) (bytes : Bytes)
      → At o (start_byte is_list ∷ bytes)
      → parse_part set source loop o ≡ close_struct set source is_list o (loop (o + 1))
  unfolding process_struct
  parse_part-struct loop o true bytes at = parse_part-value loop o b'l' bytes at
  parse_part-struct loop o false bytes at = parse_part-value loop o b'd' bytes at

  parse_items-step :
      (fuel o c : ℕ) (bytes : Bytes)
      → At o (c ∷ bytes)
      → parse_items set source (suc fuel) o ≡ (
          if not (c == b'e')
          then and_then set source
              (parse_part set source (parse_items set source fuel) o)
              (parse_items set source fuel)
          else done [] o)
  unfolding parse_items
  parse_items-step fuel o c bytes at =
      ap
        (λ b.
          if b
          then and_then set source (parse_part set source (parse_items set source fuel) o)
              (parse_items set source fuel)
          else done [] o)
        (rw (At-inside o (c ∷ bytes) at (omega arith), At-byte o (c ∷ bytes) at) refl)

  mutual
    pub parse_part-encode :
        (v : Value) (fuel o : ℕ) (rest : Bytes)
        → At o (encode v ++ rest)
        → length source < fuel + (o + 1)
        → parse_part set source (parse_items set source fuel) o
          ≡ done (tokens set o v) (o + length (encode v))
    parse_part-encode (number n) fuel o rest at h =
        parse_part-value (parse_items set source fuel) o b'i' _ at
        ∙ process_integer-encode o n rest at
    parse_part-encode (text s) fuel o rest at h =
        parse_part-text (parse_items set source fuel) o _ at (text-digit s rest)
        ∙ process_string-encode o s rest at
    parse_part-encode (struct is_list values) fuel o rest at h =
        let inside : At (o + 1) (encode_all values ++ b'e' ∷ rest) =
          At-behind o (o + 1) (start_byte is_list ∷ []) (encode_all values ++ b'e' ∷ rest)
            (at ∙ ap (◌∷◌ (start_byte is_list)) (append_assoc (encode_all values) (b'e' ∷ []) rest))
            refl in
        parse_part-struct (parse_items set source fuel) o is_list _ at
        ∙ ap (close_struct set source is_list o) (
            parse_items-encode values fuel (o + 1) rest inside (omega arith) (
              omega (
                arith,
                At-length (o + 1) _ inside,
                length-append (encode_all values) (b'e' ∷ rest),
              )))
        ∙ ap (done (tokens set o (struct is_list values)))
            (omega (arith, length-append (encode_all values) (b'e' ∷ [])))

    parse_items-encode :
        (values : Values) (fuel o : ℕ) (rest : Bytes)
        → At o (encode_all values ++ b'e' ∷ rest)
        → length source < fuel + o
        → 0 < fuel
        → parse_items set source fuel o
          ≡ done (all_tokens set o values) (o + length (encode_all values))
    parse_items-encode values zero o rest at h z = absurd (omega arith)
    parse_items-encode nil (suc fuel) o rest at h z =
        parse_items-step fuel o b'e' rest at ∙ ap (done []) (omega arith)
    parse_items-encode (cons v values) (suc fuel) o rest at h z =
        let behind = encode_all values ++ b'e' ∷ rest in
        let here : At o (encode v ++ behind) =
          at ∙ append_assoc (encode v) (encode_all values) (b'e' ∷ rest) in
        let (c, (more, (first, goes_on))) = encode-first v behind in
        let next = o + length (encode v) in
        let there : At next behind = At-behind o next (encode v) behind here refl in
        let inside = At-length o _ (here ∙ first) in
        parse_items-step fuel o c more (here ∙ first)
        ∙ rw goes_on (
            ap (λ r. and_then set source r (parse_items set source fuel))
              (parse_part-encode v fuel o behind here (omega arith))
            ∙ ap (put_before set source (tokens set o v)) (
                parse_items-encode values fuel next rest there (omega (arith, encode-length v))
                  (omega arith))
            ∙ ap (done (tokens set o v ++ all_tokens set next values))
                (omega (arith, length-append (encode v) (encode_all values))))

parse_all-end :
    {D : Type 0} (set : ℕ → ℕ → D) (source : Bytes) (fuel o : ℕ)
    → 0 < fuel
    → length source ≤ o
    → parse_all set source fuel o ≡ done [] o
unfolding parse_all
parse_all-end set source zero o z h = absurd (omega arith)
parse_all-end set source (suc fuel) o z h = rw (ge→ltb o (length source) h) refl

module _ {D : Type 0} (set : ℕ → ℕ → D) (v : Value) where
  -- The parser reads the bencoding of a value, of less than 2^63 bytes, as exactly the tokens of
  -- that value, with their places, and ends behind it.
  pub parse-encode :
      length (encode v) < 2 ^ 63 → parse set (encode v) ≡ done (tokens set 0 v) (length (encode v))
  unfolding parse
  parse-encode bound =
      let source = encode v in
      let size = length source in
      ap (λ fuel. parse_all set source fuel 0) (let one : size + 1 ≡ suc size = omega arith in one)
      ∙ parse_all-step set source size 0 (lt→ltb 0 size (encode-length v))
      ∙ ap (λ r. and_then set source r (parse_all set source size))
          (parse_part-encode set source bound v (size + 1) 0 [] (sym (append-nil source))
            (omega arith))
      ∙ ap (put_before set source (tokens set 0 v))
          (parse_all-end set source size (0 + size) (encode-length v) (omega arith))
      ∙ ap (λ ts. done ts (0 + size)) (append-nil (tokens set 0 v))
      ∙ ap (done (tokens set 0 v)) (omega arith)
