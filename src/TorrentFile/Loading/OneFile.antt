-- ===== src/TorrentFile/Loading/OneFile.antt =====
-- The functions of torrent_file.cpp on the tokens of a torrent with one file.
use torrent_client.Base.{ℕ, ◌/◌, ◌%◌, ◌≡◌, refl, Bytes, codes, List, [], ◌∷◌, true, ◌==◌}
use torrent_client.BeParser.{BeToken, int, str, dict_start, dict_end}
use torrent_client.SubStrings.{SubStrings}
use torrent_client.TokenListProcessor.{filled, Number, stoll, process}
use torrent_client.TorrentFile.Reading.{fill_announce, fill_pieces, cut_pieces}
use torrent_client.TorrentFile.Reading.Info.{new_file, fillers, fill_info}
use torrent_client.TorrentFile.Loading.{new_torrent_file}

-- The tokens, by what they hold: the announce, then the info dictionary.
pub record OneFile (D : Type 0) : Type 0 where
  pub start : D
  pub announce_key : D
  pub announce : D
  pub info_key : D
  pub info_start : D
  pub length_key : D
  pub length : D
  pub name_key : D
  pub name : D
  pub piece_length_key : D
  pub piece_length : D
  pub pieces_key : D
  pub pieces : D
  pub info_end : D
  pub end : D

abbrev pub one_file_tokens : {D : Type 0} → OneFile D → List (BeToken D)
one_file_tokens f =
    record { type = dict_start; substr = f.start }
    ∷ record { type = str; substr = f.announce_key }
    ∷ record { type = str; substr = f.announce }
    ∷ record { type = str; substr = f.info_key }
    ∷ record { type = dict_start; substr = f.info_start }
    ∷ record { type = str; substr = f.length_key }
    ∷ record { type = int; substr = f.length }
    ∷ record { type = str; substr = f.name_key }
    ∷ record { type = str; substr = f.name }
    ∷ record { type = str; substr = f.piece_length_key }
    ∷ record { type = int; substr = f.piece_length }
    ∷ record { type = str; substr = f.pieces_key }
    ∷ record { type = str; substr = f.pieces }
    ∷ record { type = dict_end; substr = f.info_end }
    ∷ record { type = dict_end; substr = f.end }
    ∷ []

module _ (ss : SubStrings) (f : OneFile ss.SubString) (source : Bytes) where
  -- The keys of the tokens
  abbrev pub HasKeys : Type 0
  HasKeys =
      (ss.str f.announce_key source ≡ codes "announce")
      × ((ss.str f.info_key source ≡ codes "info")
          × ((ss.str f.length_key source ≡ codes "length")
              × ((ss.str f.name_key source ≡ codes "name")
                  × ((ss.str f.piece_length_key source ≡ codes "piece length")
                      × (ss.str f.pieces_key source ≡ codes "pieces")))))

  pub process-one_file :
      (path : Bytes) (size piece_size : ℕ)
      → HasKeys
      → stoll (ss.str f.length source) ≡ Number.number size
      → stoll (ss.str f.piece_length source) ≡ Number.number piece_size
      → (ss.length f.pieces % 20 == 0) ≡ true
      → process ss
          (one_file_tokens f)
          source
          (fillers ss (one_file_tokens f) source)
          (new_torrent_file path)
        ≡ filled
            (record (new_torrent_file path) {
              announce = ss.str f.announce source;
              dir_name = ss.str f.name source;
              piece_size = piece_size;
              pieces =
                  cut_pieces ss (one_file_tokens f) source f.pieces (ss.length f.pieces / 20) 0;
              files =
                  record new_file {
                    size = size;
                    path = ss.str f.name source ∷ [];
                    dir_name = codes "/tmp/torrents/";
                  }
                  ∷ [];
            })
            15
  unfolding process fill_announce fill_info fill_pieces
  process-one_file path size piece_size keys is_size is_piece_size whole =
      rw
        (
          keys.0, keys.1.0, keys.1.1.0, is_size, keys.1.1.1.0, keys.1.1.1.1.0, is_piece_size,
          keys.1.1.1.1.1, whole,
        )
        refl
