-- ===== src/TorrentFile/Reading.antt =====
-- torrent_file.cpp: the functions that fill a TorrentFile from the tokens of its text.
pub mod Info
pub mod Progress
pub mod Lists
pub mod Pieces
use torrent_client.Base.{
  ℕ, zero, suc, ◌+◌, ◌-◌, ◌*◌, ◌/◌, ◌%◌, Bytes, codes, equal, List, [], ◌∷◌, ◌++◌, Bool, true,
  false, ◌&&◌, not, ◌==◌, ltb, if◌then◌else◌, drop, length,
}
use torrent_client.BeParser.{
  BeToken, TokenType, int, str, list_start, list_end, dict_start, dict_end,
}
use torrent_client.SubStrings.{SubStrings}
use torrent_client.TokenListProcessor.{
  Filled, filled, raised, undefined_behaviour, unfinished, runtime_error, then_do, with_number,
  stoll, token_at, Filler, Fillers, set_str, fill_int, fill_str,
}
use torrent_client.TorrentFile.{FileInfo, OffsetInPiece, TorrentFile}

abbrev pub is_list_start : TokenType → Bool
is_list_start list_start = true
is_list_start other = false

-- A token that read_lists takes: its strings before those of the tokens behind it.
abbrev pub counted : List Bytes → List Bytes × ℕ → List Bytes × ℕ
counted strings (more, n) = (strings ++ more, suc n)

module _ (ss : SubStrings) (source : Bytes) where
  -- The loop of read_lists over the tokens that are left: the strings, and the number of tokens
  -- that it goes on by.
  unfoldable pub read_list_tokens : ℕ → List (BeToken ss.SubString) → List Bytes × ℕ
  read_list_tokens zero rest = ([], 0)
  read_list_tokens (suc depth) [] = ([], 0)
  read_list_tokens (suc depth) (t ∷ rest) = elim t.type [
    | list_start ↦ counted [] (read_list_tokens (suc (suc depth)) rest)
    | list_end ↦ counted [] (read_list_tokens depth rest)
    | str ↦ counted (ss.str t.substr source ∷ []) (read_list_tokens (suc depth) rest)
    | int ↦ counted (ss.str t.substr source ∷ []) (read_list_tokens (suc depth) rest)
    | dict_start ↦ ([], 0)
    | dict_end ↦ ([], 0)
  ]

module _ (ss : SubStrings) (tokens : List (BeToken ss.SubString)) (source : Bytes) where
  -- read_lists, and what its caller does with the strings and the next token
  unfoldable pub read_lists : ℕ → (List Bytes → ℕ → Filled TorrentFile) → Filled TorrentFile
  unfolding read_list_tokens
  read_lists i k = token_at tokens i (λ type sub.
      let depth = if is_list_start type then 1 else 0 in
      let (strings, n) = read_list_tokens ss source depth (drop (i + 1) tokens) in
      k strings (i + 1 + n))

  unfoldable pub fill_announce : Filler TorrentFile
  fill_announce t i =
      token_at tokens (i + 1)
        (set_str ss tokens source (λ t s. record t { announce = s }) t (i + 1))

  unfoldable pub fill_announce_list : Filler TorrentFile
  unfolding read_lists
  fill_announce_list t i =
      read_lists (i + 1) (λ strings j. filled (record t { announce_list = strings }) j)

  unfoldable pub fill_creation_date : Filler TorrentFile
  fill_creation_date = fill_int ss tokens source (λ t n. record t { creation_date = n })

  unfoldable pub fill_comment : Filler TorrentFile
  fill_comment = fill_str ss tokens source (λ t s. record t { comment = s })

  unfoldable pub fill_created_by : Filler TorrentFile
  fill_created_by = fill_str ss tokens source (λ t s. record t { created_by = s })

  unfoldable pub fill_encoding : Filler TorrentFile
  fill_encoding = fill_str ss tokens source (λ t s. record t { encoding = s })

  -- The loop of fill_pieces from piece number `i` on: `count` pieces are left.
  abbrev pub cut_pieces : ss.SubString → ℕ → ℕ → List Bytes
  cut_pieces pieces zero i = []
  cut_pieces pieces (suc count) i =
      ss.substr pieces source (i * 20) 20 ∷ cut_pieces pieces count (i + 1)

  unfoldable pub fill_pieces : ss.SubString → Filler TorrentFile
  fill_pieces pieces t i =
      if ss.length pieces % 20 == 0
      then filled (record t { pieces = t.pieces ++ cut_pieces pieces (ss.length pieces / 20) 0 })
          (i + 1)
      else raised (runtime_error "invalid pieces length")
