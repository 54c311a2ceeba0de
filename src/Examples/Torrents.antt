-- ===== src/Examples/Torrents.antt =====
-- The theorems on torrent_file.cpp and files.cpp at concrete inputs.
use torrent_client.Base.{
  ℕ, ◌+◌, ◌*◌, ◌/◌, ◌-◌, ◌≡◌, ◌==◌, refl, List, [], ◌∷◌, false, ok, arith, if◌then◌else◌,
}
use torrent_client.TorrentFile.{FileInfo, TorrentFile, fill_piece_offsets, place_files}
use torrent_client.TorrentFile.Offsets.{
  located_all, fill_piece_offsets-located, place_files-boundary,
}
use torrent_client.Files.{
  File, part_offset, offset_in_file, search_file, found, out_of_fuel, write_piece,
}
use torrent_client.Files.Search.{StartsAt, searched, search_behind}
use torrent_client.Files.Everywhere.{write_all, write_piece-all}
use torrent_client.Files.Position.{offset_in_file-shifted}
use torrent_client.Examples.Platforms.{in_memory}

-- A file of a size, not placed yet.
abbrev file_info : ℕ → FileInfo
file_info size = record {
  path = [];
  dir_name = [];
  md5_sum = [];
  size = size;
  first_piece = record { index = 0; offset = 0 };
  last_piece = record { index = 0; offset = 0 };
}

-- Two files of 20 and 5 bytes in pieces of 16.
abbrev two_files : TorrentFile
two_files = record {
  announce_list = [];
  pieces = [] ∷ [] ∷ [];
  files = file_info 20 ∷ file_info 5 ∷ [];
  path = [];
  announce = [];
  comment = [];
  created_by = [];
  encoding = [];
  dir_name = [];
  info_sha1 = [];
  info_sha1_string = [];
  creation_date = 0;
  piece_size = 16;
  last_piece_size = 0;
  full_size = 0;
  private_flag = 0;
}

fill_piece_offsets-located_example :
    fill_piece_offsets two_files
    ≡ ok (record two_files {
      files = located_all 16 0 (file_info 20 ∷ file_info 5 ∷ []);
      full_size = 25;
      last_piece_size = 9;
    })
fill_piece_offsets-located_example =
    fill_piece_offsets-located two_files (omega arith) (λ e. cc) (λ e. cc) refl (omega arith)
      ((λ e. omega arith), ((λ e. omega arith), tt))

-- A first file of exactly one piece.
place_files-boundary_example :
    (f' g' : FileInfo) × (fs' : List FileInfo) × ((place_files 16
        (record { index = 0; offset = 0; full_size = 0 })
        (file_info 16 ∷ file_info 5 ∷ [])).0
      ≡ f' ∷ g' ∷ fs')
    × (f'.last_piece.index ≡ (16 - 1) / 16 + 1)
    × (g'.first_piece.index ≡ 16 / 16 + 1)
place_files-boundary_example =
    place_files-boundary 16 0 (file_info 16) (file_info 5) [] (omega arith) (omega arith) refl
      (omega arith) (omega arith)

-- A file from byte `start` of piece `first` up to byte `end` of piece `last`.
abbrev file : ℕ → ℕ → ℕ → ℕ → File in_memory
file first start last end = record {
  bitset = λ i. false;
  info = record (file_info 0) {
    first_piece = record { index = first; offset = start };
    last_piece = record { index = last; offset = end };
  };
  piece_size = 16;
  full = false;
  fd = λ i. 0;
}

abbrev three_files : List (File in_memory)
three_files = file 0 0 1 4 ∷ file 1 4 1 9 ∷ file 1 9 3 16 ∷ []

abbrev source : ℕ → ℕ
source i = i + 100

-- Piece 1 has bytes of all three files.
write_piece-all_example :
    write_piece in_memory 1 source 16 three_files ≡ write_all in_memory 1 source 16 three_files
write_piece-all_example =
    write_piece-all in_memory 1 source 16 three_files 1 (file 1 4 1 9)
      (omega arith, omega arith, (omega arith, omega arith, (omega arith, omega arith, tt))) refl
      (omega arith, omega arith)

searched_example :
    (n : ℕ) × (search_file in_memory 4 three_files 0 3 1 ≡ found n)
    × StartsAt in_memory 1 n three_files
searched_example =
    searched in_memory 4 0 3 1 1 three_files (file 1 4 1 9)
      (omega arith, omega arith, (omega arith, omega arith, (omega arith, omega arith, tt))) refl
      (omega arith, omega arith) (omega arith) (omega arith) (omega arith) (omega arith)

search_behind_example : search_file in_memory 1000 three_files 0 3 4 ≡ out_of_fuel
search_behind_example =
    search_behind in_memory 1000 0 3 4 three_files (omega arith, (omega arith, (omega arith, tt)))
      (omega arith) (omega arith)

offset_in_file-shifted_example :
    1 * 16 + 9 + offset_in_file in_memory (file 1 9 3 16) 2
    ≡ 2 * 16 + part_offset in_memory (file 1 9 3 16) 2 + (if 2 == 1 then 0 else 16)
offset_in_file-shifted_example =
    offset_in_file-shifted in_memory (file 1 9 3 16) 2 (omega arith) (omega arith) (omega arith)
