-- ===== src/TorrentFile/Loading.antt =====
-- torrent_file.cpp: the constructor of TorrentFile, with the bytes of its file as an argument.
pub mod Progress
pub mod OneFile
pub mod Encoded
use torrent_client.Base.{
  ℕ, Bytes, List, [], ◌∷◌, Option, none, some, Outcome, Exception, ok, throws, undefined,
}
use torrent_client.BeParser.{BeToken, Parsed, done, failed, out_of_fuel, parse}
use torrent_client.SubStrings.{SubStrings}
use torrent_client.TokenListProcessor.{
  Filled, filled, raised, undefined_behaviour, unfinished, runtime_error, then_do, Filler, process,
}
use torrent_client.TorrentFile.{TorrentFile, fill_piece_offsets}
use torrent_client.TorrentFile.Reading.Info.{fillers}
use torrent_client.TorrentFile.InfoHash.{calculate_info_sha1}

-- The members before the constructor's body
abbrev pub new_torrent_file : Bytes → TorrentFile
new_torrent_file path = record {
  announce_list = [];
  pieces = [];
  files = [];
  path = path;
  announce = [];
  comment = [];
  created_by = [];
  encoding = [];
  dir_name = [];
  info_sha1 = [];
  info_sha1_string = [];
  creation_date = 0;
  piece_size = 0;
  last_piece_size = 0;
  full_size = 0;
  private_flag = 0;
}

-- The one exception of fill_piece_offsets
abbrev pub with_offsets : Outcome TorrentFile → ℕ → Filled TorrentFile
with_offsets (ok t) i = filled t i
with_offsets (throws e t) i = raised (runtime_error "empty pieces list")
with_offsets undefined i = undefined_behaviour

module _ (ss : SubStrings) (sha1 : Bytes → Bytes) where
  unfoldable pub load_tokens : Bytes → Bytes → List (BeToken ss.SubString) → Filled TorrentFile
  load_tokens path source tokens =
      then_do (process ss tokens source (fillers ss tokens source) (new_torrent_file path)) (λ t i.
        then_do (calculate_info_sha1 ss sha1 source tokens t i)
          (λ u j. with_offsets (fill_piece_offsets u) j))

  abbrev pub load_parsed : Bytes → Bytes → Parsed ss.SubString → Filled TorrentFile
  load_parsed path source (done tokens offset) = load_tokens path source tokens
  load_parsed path source (failed e) = raised (runtime_error e)
  load_parsed path source out_of_fuel = unfinished

  -- The constructor. `content` is what get_data_from_file reads, if it opens the file; the message
  -- of its exception lacks the path.
  unfoldable pub load : Bytes → Option Bytes → Filled TorrentFile
  unfolding load_tokens
  load path none = raised (runtime_error "unable to open file: ")
  load path (some source) = load_parsed path source (parse ss.set source)
