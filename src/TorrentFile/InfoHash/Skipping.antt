-- ===== src/TorrentFile/InfoHash/Skipping.antt =====
-- The loops of calculate_info_sha1 in torrent_file.cpp over the tokens of a value.
use torrent_client.Base.{
  ℕ, zero, suc, ◌+◌, ◌/◌, ◌%◌, ◌^◌, ◌≤◌, ◌<◌, ◌≡◌, refl, sym, ap, ◌∙◌, inl, inr, Bytes, codes,
  equal, decimal, List, [], ◌∷◌, ◌++◌, append_assoc, Bool, true, false, ltb, ltb→lt, ltb→ge, ◌==◌,
  ne→==, Bool-cases, length, length-append, arith,
}
use torrent_client.BeParser.{BeToken, TokenType, int, str, dict_end, start_type, end_type}
use torrent_client.BeParser.Encoding.{
  Value, number, text, struct, Values, nil, cons, encode, encode_all, token, tokens, all_tokens,
}
use torrent_client.SubStrings.{SubStrings}
use torrent_client.TorrentFile.InfoHash.{count_decimals, find_info, next_depth, skip_value}

count_decimals_zero : (fuel : ℕ) → count_decimals fuel 0 ≡ 0
count_decimals_zero zero = refl
count_decimals_zero (suc fuel) = refl

-- log10 counts the digits that to_string writes.
pub count_decimals-decimal :
    (digits fuel n : ℕ)
    → 0 < n
    → n < 10 ^ digits
    → n ≤ fuel
    → count_decimals fuel n ≡ length (decimal digits n)
count_decimals-decimal zero fuel n z h l = absurd (omega arith)
count_decimals-decimal (suc digits) zero n z h l = absurd (omega arith)
count_decimals-decimal (suc digits) (suc fuel) n z h l =
    let some_digit : (n == 0) ≡ false = ne→== n 0 (λ e. omega arith) in
    elim (Bool-cases (ltb n 10)) [
      | inl s ↦
          let none_left : n / 10 ≡ 0 = let small = ltb→lt n 10 s in omega arith in
          rw (s, some_digit, none_left, count_decimals_zero fuel) refl
      | inr s ↦
          let large = ltb→ge n 10 s in
          rw
            (
              s,
              some_digit,
              count_decimals-decimal digits fuel (n / 10) (omega arith) (omega arith) (omega arith),
            )
            (omega (arith, length-append (decimal digits (n / 10)) ((b'0' + n % 10) ∷ [])))
    ]

abbrev pub append_values : Values → Values → Values
append_values nil values = values
append_values (cons v more) values = cons v (append_values more values)

pub encode_all-append :
    (front values : Values)
    → encode_all (append_values front values) ≡ encode_all front ++ encode_all values
encode_all-append nil values = refl
encode_all-append (cons v front) values =
    ap (◌++◌ (encode v)) (encode_all-append front values)
    ∙ sym (append_assoc (encode v) (encode_all front) (encode_all values))

module _ {D : Type 0} (set : ℕ → ℕ → D) where
  pub all_tokens-append :
      (o : ℕ) (front values : Values)
      → all_tokens set o (append_values front values)
        ≡ all_tokens set o front ++ all_tokens set (o + length (encode_all front)) values
  all_tokens-append o nil values = ap (λ k. all_tokens set k values) (omega arith)
  all_tokens-append o (cons v front) values =
      ap (◌++◌ (tokens set o v)) (all_tokens-append (o + length (encode v)) front values)
      ∙ ap
          (λ k.
            tokens set o v
            ++ (all_tokens set (o + length (encode v)) front ++ all_tokens set k values))
          (omega (arith, length-append (encode v) (encode_all front)))
      ∙ sym (append_assoc (tokens set o v) (all_tokens set (o + length (encode v)) front) _)

module _ (ss : SubStrings) (sha1 : Bytes → Bytes) (source : Bytes) where
  skip_value-on :
      (type : TokenType) (sub : ss.SubString) (depth inner : ℕ) (rest : List (BeToken ss.SubString))
      → next_depth ss sha1 source type depth ≡ inner
      → 0 < inner
      → skip_value ss sha1 source depth (record { type = type; substr = sub } ∷ rest)
        ≡ suc (skip_value ss sha1 source inner rest)
  unfolding skip_value
  skip_value-on type sub depth inner rest e z =
      let goes_on : (inner == 0) ≡ false = ne→== inner 0 (λ n. omega arith) in rw (e, goes_on) refl

  -- The depth in a list or a dictionary
  abbrev inner_depth : Bool → ℕ → ℕ
  inner_depth true depth = depth
  inner_depth false depth = suc depth

  next_depth-start :
      (is_list : Bool) (depth : ℕ)
      → suc depth < 2 ^ 64
      → next_depth ss sha1 source (start_type is_list) depth ≡ inner_depth is_list depth
  next_depth-start true depth h = refl
  next_depth-start false depth h = omega arith

  next_depth-end :
      (is_list : Bool) (depth : ℕ)
      → suc depth < 2 ^ 64
      → next_depth ss sha1 source (end_type is_list) (inner_depth is_list depth) ≡ depth
  next_depth-end true depth h = refl
  next_depth-end false depth h = omega arith

  inner_depth-bounds :
      (is_list : Bool) (depth : ℕ)
      → (depth ≤ inner_depth is_list depth) × (inner_depth is_list depth ≤ suc depth)
  inner_depth-bounds true depth = (omega arith, omega arith)
  inner_depth-bounds false depth = (omega arith, omega arith)

  mutual
    -- Inside a dictionary the loop over the value goes on behind each value in it.
    skip_value-tokens :
        (v : Value) (o depth : ℕ) (rest : List (BeToken ss.SubString))
        → 0 < depth
        → depth + length (tokens ss.set o v) < 2 ^ 64
        → skip_value ss sha1 source depth (tokens ss.set o v ++ rest)
          ≡ length (tokens ss.set o v) + skip_value ss sha1 source depth rest
    skip_value-tokens (number n) o depth rest z h =
        skip_value-on int _ depth depth rest refl z ∙ omega arith
    skip_value-tokens (text s) o depth rest z h =
        skip_value-on str _ depth depth rest refl z ∙ omega arith
    skip_value-tokens (struct is_list values) o depth rest z h =
        let inner = inner_depth is_list depth in
        let (above, below) = inner_depth-bounds is_list depth in
        let body = all_tokens ss.set (o + 1) values in
        let end = token ss.set (end_type is_list) (o + 1 + length (encode_all values)) 0 in
        let size = length-append body (end ∷ []) in
        skip_value-on (start_type is_list) _ depth inner _
          (next_depth-start is_list depth (omega arith)) (omega arith)
        ∙ ap (λ ts. suc (skip_value ss sha1 source inner ts)) (append_assoc body (end ∷ []) rest)
        ∙ ap suc (
            skip_value-all_tokens values (o + 1) inner (end ∷ rest) (omega arith) (omega arith)
            ∙ ap (◌+◌ (length body)) (
                skip_value-on (end_type is_list) _ inner depth rest
                  (next_depth-end is_list depth (omega arith)) z))
        ∙ omega arith

    skip_value-all_tokens :
        (values : Values) (o depth : ℕ) (rest : List (BeToken ss.SubString))
        → 0 < depth
        → depth + length (all_tokens ss.set o values) < 2 ^ 64
        → skip_value ss sha1 source depth (all_tokens ss.set o values ++ rest)
          ≡ length (all_tokens ss.set o values) + skip_value ss sha1 source depth rest
    skip_value-all_tokens nil o depth rest z h = omega arith
    skip_value-all_tokens (cons v values) o depth rest z h =
        let more = all_tokens ss.set (o + length (encode v)) values in
        ap (skip_value ss sha1 source depth) (append_assoc (tokens ss.set o v) more rest)
        ∙ skip_value-tokens v o depth (more ++ rest) z
            (omega (arith, length-append (tokens ss.set o v) more))
        ∙ ap (◌+◌ (length (tokens ss.set o v))) (
            skip_value-all_tokens values (o + length (encode v)) depth rest z
              (omega (arith, length-append (tokens ss.set o v) more)))
        ∙ omega (arith, length-append (tokens ss.set o v) more)

  pub skip_value-dictionary :
      (values : Values) (o : ℕ) (rest : List (BeToken ss.SubString))
      → length (tokens ss.set o (struct false values)) < 2 ^ 63
      → skip_value ss sha1 source 0 (tokens ss.set o (struct false values) ++ rest)
        ≡ length (tokens ss.set o (struct false values))
  unfolding skip_value
  skip_value-dictionary values o rest h =
      let body = all_tokens ss.set (o + 1) values in
      let end = token ss.set dict_end (o + 1 + length (encode_all values)) 0 in
      let size = length-append body (end ∷ []) in
      ap (λ ts. suc (skip_value ss sha1 source 1 ts)) (append_assoc body (end ∷ []) rest)
      ∙ ap suc (skip_value-all_tokens values (o + 1) 1 (end ∷ rest) (omega arith) (omega arith))
      ∙ omega arith

  -- No text of these tokens is "info".
  abbrev pub NoneIsInfo : List (BeToken ss.SubString) → Type 0
  NoneIsInfo [] = Unit {0}
  NoneIsInfo (t ∷ before) =
      (equal (ss.str t.substr source) (codes "info") ≡ false) × NoneIsInfo before

  pub find_info-first :
      (before rest : List (BeToken ss.SubString)) (key : BeToken ss.SubString)
      → NoneIsInfo before
      → ss.str key.substr source ≡ codes "info"
      → find_info ss sha1 source (before ++ key ∷ rest) ≡ length before
  unfolding find_info
  find_info-first [] rest key none e = rw e refl
  find_info-first (t ∷ before) rest key none e =
      rw none.0 (ap suc (find_info-first before rest key none.1 e))
