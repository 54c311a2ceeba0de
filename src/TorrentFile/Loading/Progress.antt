-- ===== src/TorrentFile/Loading/Progress.antt =====
-- The constructor of TorrentFile ends.
use torrent_client.Base.{
  ℕ, ◌+◌, ◌^◌, ◌<◌, ◌≢◌, Bytes, List, some, ltb, ◌==◌, drop, length, Outcome, ok, throws, undefined,
  arith,
}
use torrent_client.BeParser.{BeToken, Parsed, done, failed, out_of_fuel, TokenType, int, str, parse}
use torrent_client.BeParser.Progress.{EndsFrom, parse-EndsFrom}
use torrent_client.SubStrings.{SubStrings}
use torrent_client.TokenListProcessor.{unfinished}
use torrent_client.TokenListProcessor.Progress.{
  FillsFrom, ends, raises, breaks, then_do-FillsFrom, FillsFrom-ne, token_at-FillsFrom,
  if-FillsFrom, process-FillsFrom,
}
use torrent_client.TorrentFile.{TorrentFile, fill_piece_offsets}
use torrent_client.TorrentFile.Reading.Info.{fillers}
use torrent_client.TorrentFile.Reading.Progress.{fillers-AllAdvance}
use torrent_client.TorrentFile.InfoHash.{
  calculate_info_sha1, hash_part, hash_before, skip_value, find_info,
}
use torrent_client.TorrentFile.Loading.{
  new_torrent_file, with_offsets, load_tokens, load_parsed, load,
}

with_offsets-FillsFrom : (r : Outcome TorrentFile) (i : ℕ) → FillsFrom 0 (with_offsets r i)
with_offsets-FillsFrom (ok t) i = ends t i (omega arith)
with_offsets-FillsFrom (throws e t) i = raises _
with_offsets-FillsFrom undefined i = breaks

module _ (ss : SubStrings) (sha1 : Bytes → Bytes) (source : Bytes) where
  hash_part-FillsFrom :
      (start end modifier : ℕ) (t : TorrentFile) (i : ℕ)
      → FillsFrom 0 (hash_part ss sha1 source start end modifier t i)
  unfolding hash_part
  hash_part-FillsFrom start end modifier t i =
      if-FillsFrom (ltb (length source) start) (raises _) (ends _ i (omega arith))

  hash_before-FillsFrom :
      (start : ℕ) (t : TorrentFile) (i : ℕ) (type : TokenType) (sub : ss.SubString)
      → FillsFrom 0 (hash_before ss sha1 source start t i type sub)
  unfolding hash_before
  hash_before-FillsFrom start t i int sub = hash_part-FillsFrom start _ _ t i
  hash_before-FillsFrom start t i str sub =
      if-FillsFrom (ss.length sub == 0) breaks (hash_part-FillsFrom start _ _ t i)
  hash_before-FillsFrom start t i other sub = hash_part-FillsFrom start _ _ t i

  calculate_info_sha1-FillsFrom :
      (tokens : List (BeToken ss.SubString)) (t : TorrentFile) (i : ℕ)
      → FillsFrom 0 (calculate_info_sha1 ss sha1 source tokens t i)
  unfolding calculate_info_sha1
  calculate_info_sha1-FillsFrom tokens t i =
      let value = find_info ss sha1 source tokens + 1 in
      let next = value + skip_value ss sha1 source 0 (drop value tokens) in
      if-FillsFrom (find_info ss sha1 source tokens == length tokens) (ends t _ (omega arith)) (
        token_at-FillsFrom tokens value (λ type sub l.
          if-FillsFrom (next == length tokens) (ends t next (omega arith)) (
            token_at-FillsFrom tokens next
              (λ type' sub' m. hash_before-FillsFrom (ss.start sub) t next type' sub'))))

  load_tokens-FillsFrom :
      (path : Bytes) (tokens : List (BeToken ss.SubString))
      → FillsFrom 0 (load_tokens ss sha1 path source tokens)
  unfolding load_tokens
  load_tokens-FillsFrom path tokens =
      then_do-FillsFrom
        (process-FillsFrom ss tokens source (fillers ss tokens source)
          (fillers-AllAdvance ss tokens source) (new_torrent_file path))
        (λ t i l.
          then_do-FillsFrom (calculate_info_sha1-FillsFrom tokens t i)
            (λ u j m. with_offsets-FillsFrom (fill_piece_offsets u) j))

  load_parsed-ne :
      (path : Bytes) (r : Parsed ss.SubString)
      → EndsFrom (length source) r
      → load_parsed ss sha1 path source r ≢ unfinished
  load_parsed-ne path (done tokens offset) e = FillsFrom-ne (load_tokens-FillsFrom path tokens)
  load_parsed-ne path (failed x) e = λ h. cc
  load_parsed-ne path out_of_fuel e = absurd e

  -- The constructor of TorrentFile ends for every torrent file of less than 2^63 bytes, whatever is
  -- in it: with an object, with an exception, or in undefined behaviour.
  pub load-ends :
      (path : Bytes) → length source < 2 ^ 63 → load ss sha1 path (some source) ≢ unfinished
  unfolding load
  load-ends path bound =
      load_parsed-ne path (parse ss.set source) (parse-EndsFrom ss.set source bound)
