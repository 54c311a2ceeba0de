-- ===== src/TorrentFile/InfoHash/Encoded.antt =====
-- The bytes that calculate_info_sha1 of torrent_file.cpp hashes, for the bencoding of a torrent.
use torrent_client.Base.{
  ℕ, ◌+◌, ◌-◌, ◌^◌, ◌≤◌, ◌<◌, ◌≡◌, refl, sym, ap, ◌∙◌, Bytes, codes, List, [], ◌∷◌, ◌++◌,
  append_assoc, false, take, drop, length, length-append, drop-length-append, take-length-append,
  arith,
}
use torrent_client.Base.Decimal.{to_string}
use torrent_client.BeParser.{BeToken, str, dict_start, dict_end, end_type}
use torrent_client.BeParser.Encoding.{
  Value, number, text, struct, Values, nil, cons, encode, encode_all, token, tokens, all_tokens,
  encode-length,
}
use torrent_client.SubStrings.{SubStrings}
use torrent_client.TokenListProcessor.{filled}
use torrent_client.TorrentFile.{TorrentFile}
use torrent_client.TorrentFile.InfoHash.{set_info_sha1, calculate_info_sha1}
use torrent_client.TorrentFile.InfoHash.Skipping.{
  append_values, encode_all-append, all_tokens-append, NoneIsInfo,
}
use torrent_client.TorrentFile.InfoHash.Value.{
  IsFollowed, tokens-follower, calculate_info_sha1-tokens,
}

module _ {D : Type 0} (set : ℕ → ℕ → D) where
  mutual
    tokens-length : (v : Value) (o : ℕ) → length (tokens set o v) ≤ length (encode v)
    tokens-length (number n) o = omega arith
    tokens-length (text s) o = encode-length (text s)
    tokens-length (struct is_list values) o = omega (
      arith,
      all_tokens-length values (o + 1),
      length-append (encode_all values) (b'e' ∷ []),
      length-append (all_tokens set (o + 1) values)
          (token set (end_type is_list) (o + 1 + length (encode_all values)) 0 ∷ []),
    )

    all_tokens-length :
        (values : Values) (o : ℕ) → length (all_tokens set o values) ≤ length (encode_all values)
    all_tokens-length nil o = omega arith
    all_tokens-length (cons v values) o = omega (
      arith,
      tokens-length v o,
      all_tokens-length values (o + length (encode v)),
      length-append (encode v) (encode_all values),
      length-append (tokens set o v) (all_tokens set (o + length (encode v)) values),
    )

-- A dictionary with the key info: the keys and values before it, the info dictionary, and what
-- follows it.
abbrev pub info_key : Value
info_key = text (codes "info")

abbrev pub torrent : Values → Values → Values → Value
torrent pre info post =
    struct false (append_values pre (cons info_key (cons (struct false info) post)))

regroup : (a b c d e : Bytes) → (a ++ (b ++ (c ++ d))) ++ e ≡ (a ++ b) ++ (c ++ (d ++ e))
regroup a b c d e = simp append_assoc

module _ (ss : SubStrings) (sha1 : Bytes → Bytes)
    (starts : (from to : ℕ) → ss.start (ss.set from to) ≡ from)
    (lengths : (from to : ℕ) → from ≤ to → ss.length (ss.set from to) ≡ to - from)
    (texts : (from to : ℕ) (source : Bytes)
      → from ≤ to
      → ss.str (ss.set from to) source ≡ take (to - from) (drop from source))
    (pre info post : Values) (bound : length (encode (torrent pre info post)) < 2 ^ 63) where
  abbrev source : Bytes
  source = encode (torrent pre info post)

  -- The tokens in front of the key
  abbrev pub tokens_before : List (BeToken ss.SubString)
  tokens_before = token ss.set dict_start 0 0 ∷ all_tokens ss.set 1 pre

  abbrev value : Bytes
  value = encode (struct false info)

  abbrev front : Bytes
  front = b'd' ∷ (encode_all pre ++ encode info_key)

  abbrev back : Bytes
  back = encode_all post ++ b'e' ∷ []

  source-parts : source ≡ front ++ (value ++ back)
  source-parts =
      ap (λ bytes. b'd' ∷ (bytes ++ b'e' ∷ []))
        (encode_all-append pre (cons info_key (cons (struct false info) post)))
      ∙ ap (◌∷◌ b'd')
          (regroup (encode_all pre) (encode info_key) value (encode_all post) (b'e' ∷ []))

  abbrev key_at : ℕ
  key_at = 1 + length (encode_all pre)

  abbrev from : ℕ
  from = key_at + length (encode info_key)

  abbrev to : ℕ
  to = from + length value

  abbrev key : BeToken ss.SubString
  key = let start = key_at + length (to_string 4) + 1 in token ss.set str start (start + 4)

  front-length : length front ≡ from
  front-length = omega (arith, length-append (encode_all pre) (encode info_key))

  value-text : take (to - from) (drop from source) ≡ value
  value-text =
      ap (λ k. take k (drop from source))
        (let size : to - from ≡ length value = omega arith in size)
      ∙ ap (λ bytes. take (length value) (drop from bytes)) source-parts
      ∙ ap (λ k. take (length value) (drop k (front ++ (value ++ back)))) (sym front-length)
      ∙ ap (take (length value)) (drop-length-append front (value ++ back))
      ∙ take-length-append value back

  source-length : to ≤ length source
  source-length =
      let split = ap length source-parts in
      omega
        (arith, split, front-length, length-append front (value ++ back), length-append value back)

  key-text : ss.str key.substr source ≡ codes "info"
  unfolding to_string
  key-text =
      let head : Bytes = b'd' ∷ (encode_all pre ++ b'4' ∷ b':' ∷ []) in
      let at : key_at + 1 + 1 ≡ length head =
        omega (arith, length-append (encode_all pre) (b'4' ∷ b':' ∷ [])) in
      let parts : source ≡ head ++ (codes "info" ++ (value ++ back)) =
        source-parts
        ∙ ap (◌∷◌ b'd') (
            append_assoc (encode_all pre) (codes "4:info") (value ++ back)
            ∙ sym (append_assoc (encode_all pre) (codes "4:") (codes "info" ++ (value ++ back)))) in
      texts (key_at + 1 + 1) (key_at + 1 + 1 + 4) source (omega arith)
      ∙ ap (λ k. take k (drop (key_at + 1 + 1) source))
          (let four : key_at + 1 + 1 + 4 - (key_at + 1 + 1) ≡ 4 = omega arith in four)
      ∙ rw (at, parts, drop-length-append head (codes "info" ++ (value ++ back))) refl

  abbrev inside : Values
  inside = append_values pre (cons info_key (cons (struct false info) post))

  abbrev end_token : BeToken ss.SubString
  end_token = token ss.set dict_end (1 + length (encode_all inside)) 0

  end-at : 1 + length (encode_all inside) ≡ to + length (encode_all post)
  end-at =
      let split =
        ap length (encode_all-append pre (cons info_key (cons (struct false info) post))) in
      omega (
        arith,
        split,
        length-append (encode_all pre) (encode info_key ++ (value ++ encode_all post)),
        length-append (encode info_key) (value ++ encode_all post),
        length-append value (encode_all post),
      )

  all-tokens :
      tokens ss.set 0 (torrent pre info post)
      ≡ tokens_before
        ++ key
          ∷ (tokens ss.set from (struct false info)
              ++ (all_tokens ss.set to post ++ end_token ∷ []))
  all-tokens =
      let body = tokens ss.set from (struct false info) in
      let last = all_tokens ss.set to post in
      ap (λ ts. token ss.set dict_start 0 0 ∷ (ts ++ end_token ∷ []))
        (all_tokens-append ss.set 1 pre (cons info_key (cons (struct false info) post)))
      ∙ ap (◌∷◌ (token ss.set dict_start 0 0)) (
          append_assoc (all_tokens ss.set 1 pre) (key ∷ (body ++ last)) (end_token ∷ [])
          ∙ ap (λ ts. all_tokens ss.set 1 pre ++ key ∷ ts)
              (append_assoc body last (end_token ∷ [])))

  -- For the tokens of the bencoding of a dictionary of less than 2^63 bytes with the key info and a
  -- dictionary as its value: if no token before the key has the text info, and nothing or a key that
  -- is not empty follows the value, what is hashed is exactly the bencoding of that dictionary.
  -- SubString gives back the start of its place, its length, and the bytes of the text in it.
  pub calculate_info_sha1-value :
      (t : TorrentFile) (i : ℕ)
      → NoneIsInfo ss sha1 source tokens_before
      → IsFollowed post
      → (j : ℕ) × (calculate_info_sha1 ss sha1 source (tokens ss.set 0 (torrent pre info post)) t i
          ≡ filled (set_info_sha1 ss sha1 source (encode (struct false info)) t) j)
  calculate_info_sha1-value t i none followed =
      let body = tokens ss.set from (struct false info) in
      let (rest, behind) =
        tokens-follower ss sha1 source starts lengths bound post to _ followed end-at in
      let small : length body < 2 ^ 63 =
        omega (arith, tokens-length ss.set (struct false info) from, source-length, bound) in
      (
        length tokens_before + 1 + length body,
        ap (λ ts. calculate_info_sha1 ss sha1 source ts t i)
              (all-tokens ∙ ap (λ ts. tokens_before ++ key ∷ (body ++ ts)) behind)
            ∙ calculate_info_sha1-tokens ss sha1 source starts lengths bound tokens_before rest key
                info post from to t i none key-text followed (omega arith) source-length small
            ∙ ap
                (λ bytes.
                  filled (set_info_sha1 ss sha1 source bytes t)
                    (length tokens_before + 1 + length body))
                value-text,
      )
