-- ===== src/TorrentFile.antt =====
-- class TorrentFile of torrent_file.hpp and torrent_file.cpp: what a torrent file describes. A
-- string is the list of its bytes.
pub mod Offsets
pub mod Reading
pub mod InfoHash
pub mod Loading
pub mod Layout
use torrent_client.Base.{
  ℕ, List, [], ◌∷◌, Option, none, some, Outcome, ok, throws, undefined, runtime_error, ◌==◌,
  if◌then◌else◌, add64, ◌/◌, ◌%◌, Bytes,
}

-- FileInfo::OffsetInPiece
pub record OffsetInPiece : Type 0 where
  pub index : ℕ
  pub offset : ℕ

pub record FileInfo : Type 0 where
  pub path : List Bytes
  pub dir_name : Bytes
  pub md5_sum : Bytes
  pub size : ℕ
  pub first_piece : OffsetInPiece
  pub last_piece : OffsetInPiece

pub record TorrentFile : Type 0 where
  pub announce_list : List Bytes
  pub pieces : List Bytes
  pub files : List FileInfo
  pub path : Bytes
  pub announce : Bytes
  pub comment : Bytes
  pub created_by : Bytes
  pub encoding : Bytes
  pub dir_name : Bytes
  pub info_sha1 : Bytes
  pub info_sha1_string : Bytes
  pub creation_date : ℕ
  pub piece_size : ℕ
  pub last_piece_size : ℕ
  pub full_size : ℕ
  pub private_flag : ℕ

-- Where the loop of fill_piece_offsets stands.
pub record Cursor : Type 0 where
  pub index : ℕ
  pub offset : ℕ
  pub full_size : ℕ

-- The loop's body: the file with its pieces, and the place behind it.
unfoldable pub place_file : ℕ → Cursor → FileInfo → FileInfo × Cursor
place_file size c f =
    let end = add64 c.offset f.size in
    let index = add64 c.index (end / size) in
    let rest = end % size in
    (
      record f {
        first_piece = record { index = c.index; offset = c.offset };
        last_piece = record { index = index; offset = if rest == 0 then size else rest };
      },
      record {
        index = if rest == 0 then add64 index 1 else index;
        offset = rest;
        full_size = add64 c.full_size f.size;
      },
    )

unfoldable pub place_files : ℕ → Cursor → List FileInfo → List FileInfo × Cursor
place_files size c [] = ([], c)
place_files size c (f ∷ fs) =
    let (f', c') = place_file size c f in let (fs', c'') = place_files size c' fs in (f' ∷ fs', c'')

-- The end of fill_piece_offsets. A division by a piece size of 0 is undefined.
abbrev pub check_pieces : List Bytes → TorrentFile → Outcome TorrentFile
check_pieces [] t = throws (runtime_error "empty pieces list") t
check_pieces (p ∷ ps) t =
    if t.piece_size == 0
    then undefined
    else ok (record t { last_piece_size = t.full_size % t.piece_size })

abbrev pub fill_from : TorrentFile → List FileInfo → Outcome TorrentFile
fill_from t [] = check_pieces t.pieces t
fill_from t (f ∷ fs) =
    let start : Cursor = record { index = 0; offset = 0; full_size = t.full_size } in
    let (files, c) = place_files t.piece_size start (f ∷ fs) in
    if t.piece_size == 0
    then undefined
    else check_pieces t.pieces (record t { files = files; full_size = c.full_size })

-- TorrentFile::fill_piece_offsets
unfoldable pub fill_piece_offsets : TorrentFile → Outcome TorrentFile
fill_piece_offsets t = fill_from t t.files
