-- ===== src/TorrentFile/InfoHash.antt =====
-- torrent_file.cpp: hexer and calculate_info_sha1. SHA1 is a function from another library.
pub mod Escape
pub mod Skipping
pub mod Value
pub mod Encoded
use torrent_client.Base.{
  ℕ, zero, suc, ◌+◌, ◌-◌, ◌*◌, ◌/◌, ◌%◌, ◌^◌, Bytes, codes, equal, List, [], ◌∷◌, ◌++◌, Bool, true,
  false, ◌&&◌, ◌||◌, ◌==◌, ltb, leb, add64, sub64, if◌then◌else◌, drop, take, length,
}
use torrent_client.BeParser.{
  BeToken, TokenType, int, str, list_start, list_end, dict_start, dict_end,
}
use torrent_client.SubStrings.{SubStrings}
use torrent_client.TokenListProcessor.{
  Filled, filled, raised, undefined_behaviour, out_of_range, token_at, Filler,
}
use torrent_client.TorrentFile.{TorrentFile}

-- HEX, at a number below 16
abbrev pub hex_digit : ℕ → ℕ
hex_digit n = if ltb n 10 then b'0' + n else b'A' + (n - 10)

-- The bytes that hexer leaves as they are
unfoldable pub is_plain : ℕ → Bool
is_plain c =
    (leb b'0' c && leb c b'9')
    || ((leb b'a' c && leb c b'z')
        || ((leb b'A' c && leb c b'Z')
            || ((c == b',') || ((c == b'-') || ((c == b'_') || (c == b'~'))))))

unfoldable pub hexer : Bytes → Bytes
unfolding is_plain
hexer [] = []
hexer (c ∷ cs) =
    let rest = hexer cs in
    if is_plain c then c ∷ rest else b'%' ∷ hex_digit (c / 16) ∷ hex_digit (c % 16) ∷ rest

-- uint64_t(log10(n) + 1) of a number that is not 0: with fuel for the digits.
abbrev pub count_decimals : ℕ → ℕ → ℕ
count_decimals zero n = 0
count_decimals (suc fuel) n =
    let rest = count_decimals fuel (n / 10) in if n == 0 then 0 else suc rest

module _ (ss : SubStrings) (sha1 : Bytes → Bytes) (source : Bytes) where
  -- The first loop: the number of the first token whose text is "info"
  unfoldable pub find_info : List (BeToken ss.SubString) → ℕ
  find_info [] = 0
  find_info (t ∷ tokens) =
      let rest = find_info tokens in
      if equal (ss.str t.substr source) (codes "info") then 0 else suc rest

  abbrev pub next_depth : TokenType → ℕ → ℕ
  next_depth dict_start depth = add64 depth 1
  next_depth dict_end depth = sub64 depth 1
  next_depth other depth = depth

  -- The loop over the tokens of the value: how many it goes on by
  unfoldable pub skip_value : ℕ → List (BeToken ss.SubString) → ℕ
  skip_value depth [] = 0
  skip_value depth (t ∷ rest) =
      let more = skip_value (next_depth t.type depth) rest in
      if next_depth t.type depth == 0 then 1 else suc more

  -- m_info_sha1_string and m_info_sha1 from the bytes of the value
  abbrev pub set_info_sha1 : Bytes → TorrentFile → TorrentFile
  set_info_sha1 bytes t = record t { info_sha1_string = hexer (sha1 bytes); info_sha1 = sha1 bytes }

  -- source.substr, from `start` up to `modifier` bytes before `end`
  unfoldable pub hash_part : ℕ → ℕ → ℕ → Filler TorrentFile
  hash_part start end modifier t i =
      if ltb (length source) start
      then raised out_of_range
      else filled (set_info_sha1 (take (sub64 (sub64 end start) modifier) (drop start source)) t) i

  -- length_modifier is the length of what a text has between the value and its next token.
  unfoldable pub hash_before : ℕ → TorrentFile → ℕ → TokenType → ss.SubString → Filled TorrentFile
  unfolding hash_part
  hash_before start t i int sub = hash_part start (ss.start sub) 1 t i
  hash_before start t i str sub =
      if ss.length sub == 0
      then undefined_behaviour
      else hash_part start (ss.start sub) (count_decimals (ss.length sub) (ss.length sub) + 1) t i
  hash_before start t i other sub = hash_part start (ss.start sub) 0 t i

  unfoldable pub calculate_info_sha1 : List (BeToken ss.SubString) → Filler TorrentFile
  unfolding find_info skip_value hash_before
  calculate_info_sha1 tokens t i =
      let info = find_info tokens in
      let value = info + 1 in
      let next = value + skip_value 0 (drop value tokens) in
      if info == length tokens
      then filled t info
      else token_at tokens value (λ type sub.
        if next == length tokens
        then filled t next
        else token_at tokens next (hash_before (ss.start sub) t next))
