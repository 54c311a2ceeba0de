-- ===== src/TorrentFile/InfoHash/Value.antt =====
-- calculate_info_sha1 of torrent_file.cpp on the bencoding of a torrent.
use torrent_client.Base.{
  ℕ, zero, suc, ◌+◌, ◌-◌, ◌/◌, ◌%◌, ◌^◌, ◌≤◌, ◌<◌, ◌≡◌, refl, ap, ◌∙◌, inl, inr, Bytes, codes,
  decimal, List, [], ◌∷◌, ◌++◌, false, ltb, ge→ltb, ◌==◌, ne→==, Bool-cases, sub64, take, drop,
  length, length-append, get_elem?-behind, drop-behind, arith,
}
use torrent_client.Base.Decimal.{to_string}
use torrent_client.BeParser.{BeToken, str, dict_start, dict_end}
use torrent_client.BeParser.Encoding.{
  number, text, struct, Values, nil, cons, encode_all, token, tokens, all_tokens,
}
use torrent_client.SubStrings.{SubStrings}
use torrent_client.TokenListProcessor.{filled}
use torrent_client.TokenListProcessor.Values.{token_at-get_elem?}
use torrent_client.TorrentFile.{TorrentFile}
use torrent_client.TorrentFile.InfoHash.{
  count_decimals, set_info_sha1, hash_part, hash_before, calculate_info_sha1,
}
use torrent_client.TorrentFile.InfoHash.Skipping.{
  count_decimals-decimal, skip_value-dictionary, NoneIsInfo, find_info-first,
}

decimal-bound : (digits n : ℕ) → length (decimal digits n) ≤ digits
decimal-bound zero n = omega arith
decimal-bound (suc digits) n = elim (Bool-cases (ltb n 10)) [
  | inl s ↦ rw s (omega arith)
  | inr s ↦ rw s (
      omega (
        arith,
        decimal-bound digits (n / 10),
        length-append (decimal digits (n / 10)) ((b'0' + n % 10) ∷ []),
      ))
]

to_string-bound : (n : ℕ) → length (to_string n) ≤ 20
unfolding to_string
to_string-bound n = decimal-bound 20 n

count_decimals-to_string : (n : ℕ) → 0 < n → n < 2 ^ 63 → count_decimals n n ≡ length (to_string n)
unfolding to_string
count_decimals-to_string n z h = count_decimals-decimal 20 n n z (omega arith) (omega arith)

-- What follows the info value in its dictionary: nothing, or a key that is not empty.
abbrev pub IsFollowed : Values → Type 0
IsFollowed nil = Unit {0}
IsFollowed (cons (text key) values) = (0 < length key) × (length key < 2 ^ 63)
IsFollowed (cons other values) = ⊥

module _ (ss : SubStrings) (sha1 : Bytes → Bytes) (source : Bytes)
    (starts : (from to : ℕ) → ss.start (ss.set from to) ≡ from)
    (lengths : (from to : ℕ) → from ≤ to → ss.length (ss.set from to) ≡ to - from)
    (bound : length source < 2 ^ 63) where
  hash_part-value :
      (from to end modifier : ℕ) (t : TorrentFile) (j : ℕ)
      → end ≡ to + modifier
      → from ≤ to
      → to ≤ length source
      → modifier < 2 ^ 62
      → hash_part ss sha1 source from end modifier t j
        ≡ filled (set_info_sha1 ss sha1 source (take (to - from) (drop from source)) t) j
  unfolding hash_part
  hash_part-value from to end modifier t j e l h m =
      let inside : ltb (length source) from ≡ false = ge→ltb _ _ (omega arith) in
      let size : sub64 (sub64 end from) modifier ≡ to - from = omega arith in rw (inside, size) refl

  -- The token behind the info value
  abbrev pub follower : ℕ → Values → BeToken ss.SubString
  follower to nil = token ss.set dict_end to 0
  follower to (cons (text key) values) =
      let start = to + length (to_string (length key)) + 1 in
      token ss.set str start (start + length key)
  follower to (cons other values) = token ss.set dict_end to 0

  hash_before-follower :
      (post : Values) (from to : ℕ) (t : TorrentFile) (j : ℕ)
      → IsFollowed post
      → from ≤ to
      → to ≤ length source
      → hash_before ss sha1 source from t j (follower to post).type (follower to post).substr
        ≡ filled (set_info_sha1 ss sha1 source (take (to - from) (drop from source)) t) j
  unfolding hash_before
  hash_before-follower nil from to t j f l h =
      hash_part-value from to _ 0 t j (starts to 0 ∙ omega arith) l h (omega arith)
  hash_before-follower (cons (text key) values) from to t j f l h =
      let digits = length (to_string (length key)) in
      let start = to + digits + 1 in
      let size : ss.length (ss.set start (start + length key)) ≡ length key =
        lengths start (start + length key) (omega arith) ∙ omega arith in
      let named : (length key == 0) ≡ false =
        ne→== _ _ (λ e. let some_bytes = f.0 in omega arith) in
      rw (size, named, count_decimals-to_string (length key) f.0 f.1)
        (hash_part-value from to _ (digits + 1) t j
          (starts start (start + length key) ∙ omega arith) l h
          (omega (arith, to_string-bound (length key))))
  hash_before-follower (cons (number n) values) from to t j f l h = absurd f
  hash_before-follower (cons (struct is_list more) values) from to t j f l h = absurd f

  -- The tokens behind the info value begin with the follower.
  pub tokens-follower :
      (post : Values) (to end : ℕ)
      → IsFollowed post
      → end ≡ to + length (encode_all post)
      → (rest : List (BeToken ss.SubString)) × (all_tokens ss.set to post
            ++ token ss.set dict_end end 0 ∷ []
          ≡ follower to post ∷ rest)
  tokens-follower nil to end f e = ([], ap (λ k. token ss.set dict_end k 0 ∷ []) (omega arith))
  tokens-follower (cons (text key) values) to end f e = (_, refl)
  tokens-follower (cons (number n) values) to end f e = absurd f
  tokens-follower (cons (struct is_list more) values) to end f e = absurd f

  pub calculate_info_sha1-tokens :
      (before rest : List (BeToken ss.SubString)) (key : BeToken ss.SubString) (info post : Values)
      (from to : ℕ) (t : TorrentFile) (i : ℕ)
      → NoneIsInfo ss sha1 source before
      → ss.str key.substr source ≡ codes "info"
      → IsFollowed post
      → from ≤ to
      → to ≤ length source
      → length (tokens ss.set from (struct false info)) < 2 ^ 63
      → calculate_info_sha1 ss sha1 source
          (before ++ key ∷ (tokens ss.set from (struct false info) ++ follower to post ∷ rest))
          t
          i
        ≡ filled
            (set_info_sha1 ss sha1 source (take (to - from) (drop from source)) t)
            (length before + 1 + length (tokens ss.set from (struct false info)))
  unfolding calculate_info_sha1
  calculate_info_sha1-tokens before rest key info post from to t i none named f l h size =
      let value = tokens ss.set from (struct false info) in
      let behind = key ∷ (value ++ follower to post ∷ rest) in
      let all = before ++ behind in
      let next = length before + 1 + length value in
      let count : length all ≡ length before + suc (length value + suc (length rest)) =
        omega (arith, length-append before behind, length-append value (follower to post ∷ rest)) in
      let found : (length before == length all) ≡ false = ne→== _ _ (λ e. omega arith) in
      let more : (next == length all) ≡ false = ne→== _ _ (λ e. omega arith) in
      rw
        (
          find_info-first ss sha1 source before (value ++ follower to post ∷ rest) key none named,
          drop-behind before behind (length before + 1) 1 refl,
          skip_value-dictionary ss sha1 source info from (follower to post ∷ rest) size,
          found,
        )
        (token_at-get_elem? all (length before + 1) (token ss.set dict_start from 0) _
            (get_elem?-behind before behind (length before + 1) 1 refl)
          ∙ rw (more, starts from 0)
              (token_at-get_elem? all next (follower to post) _ (
                  get_elem?-behind before behind next (suc (length value)) (omega arith)
                  ∙ get_elem?-behind value (follower to post ∷ rest) (length value) 0 (omega arith))
                ∙ hash_before-follower post from to t next f l h))
