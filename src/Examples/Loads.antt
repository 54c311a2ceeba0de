-- ===== src/Examples/Loads.antt =====
-- Concrete torrent files, and the substrings that their tokens keep.
use torrent_client.Base.{
  ℕ, ◌-◌, ◌*◌, ◌^◌, ◌<◌, ◌≤◌, ◌≡◌, ◌≢◌, refl, Bytes, codes, equal, List, [], ◌∷◌, take, drop,
  length, Option, some, none, true, false, if◌then◌else◌, arith,
}
use torrent_client.BeParser.{str, int, dict_start, list_start, list_end, parse}
use torrent_client.SubStrings.{SubStrings}
use torrent_client.TokenListProcessor.{Filled, filled, unfinished, process, stoll}
use torrent_client.TorrentFile.{
  TorrentFile, FileInfo, OffsetInPiece, fill_piece_offsets, place_files, place_file,
}
use torrent_client.TorrentFile.Reading.{fill_announce, fill_announce_list}
use torrent_client.TorrentFile.Reading.Lists.{
  Items, leaf, nested, nil, cons, fill_announce_list-strings,
}
use torrent_client.TorrentFile.Reading.Pieces.{join, AreHashes}
use torrent_client.Base.Decimal.{to_string}
use torrent_client.BeParser.Encoding.{
  Values, number, text, struct, nil, cons, encode, tokens, all_tokens,
}
use torrent_client.TorrentFile.InfoHash.{hexer, calculate_info_sha1, set_info_sha1}
use torrent_client.TorrentFile.InfoHash.Skipping.{NoneIsInfo}
use torrent_client.TorrentFile.InfoHash.Encoded.{torrent, calculate_info_sha1-value}
use torrent_client.TorrentFile.Reading.Info.{fill_info}
use torrent_client.TorrentFile.InfoHash.Escape.{unescape, outside, unescape-hexer}
use torrent_client.TorrentFile.Loading.{load, new_torrent_file, with_offsets}
use torrent_client.TorrentFile.Loading.Progress.{load-ends}
use torrent_client.TorrentFile.Loading.Encoded
use torrent_client.TorrentFile.Loading.Encoded.{info_values, load-encode}
use torrent_client.TorrentFile.Reading.Info.{new_file}
use torrent_client.Files.Opening.{FileSystem, create_absolute_path}
use torrent_client.Files.Opening.Directories.{
  directories, ensure_all, create_absolute_path-ensure_all,
}
use torrent_client.Examples.Platforms.{in_memory}

abbrev pub ranges : SubStrings
ranges = record {
  SubString = ℕ × ℕ;
  set = λ from to. (from, to);
  start = λ s. s.0;
  length = λ s. s.1 - s.0;
  str = λ s source. take (s.1 - s.0) (drop s.0 source);
  substr = λ s source offset count. take count (drop offset (take (s.1 - s.0) (drop s.0 source)));
}

-- The first bytes in place of the hash
abbrev pub first_bytes : Bytes → Bytes
first_bytes bytes = take 20 bytes

abbrev pub one_file : Bytes
one_file =
    codes
      "d8:announce9:http://ab4:infod6:lengthi30e4:name1:a12:piece lengthi20e6:pieces40:abcdefghijklmnopqrstabcdefghijklmnopqrstee"

load-ends_example : load ranges first_bytes [] (some one_file) ≢ unfinished
load-ends_example = load-ends ranges first_bytes one_file [] (omega arith)

-- What the constructor makes of the file: its place in the pieces, and the bytes of the info value.
abbrev last_pieces : List FileInfo → List OffsetInPiece
last_pieces [] = []
last_pieces (f ∷ fs) = f.last_piece ∷ last_pieces fs

abbrev loaded : Filled TorrentFile → Option (Bytes × List OffsetInPiece)
loaded (filled t i) = some (t.info_sha1, last_pieces t.files)
loaded other = none

load-one_file :
    loaded (load ranges (λ bytes. bytes) [] (some one_file))
    ≡ some (
      codes
          "d6:lengthi30e4:name1:a12:piece lengthi20e6:pieces40:abcdefghijklmnopqrstabcdefghijklmnopqrste",
      record { index = 1; offset = 10 } ∷ [],
    )
unfolding load parse process fill_announce fill_info stoll calculate_info_sha1 fill_piece_offsets
    place_files place_file
load-one_file = refl

-- One list with a string, and a list with a number in it.
abbrev nested_list : Items (ℕ × ℕ)
nested_list =
    cons (leaf true (0, 2)) (cons (nested (2, 0) (cons (leaf false (2, 3)) nil) (3, 0)) nil)

fill_announce_list-strings_example :
    fill_announce_list ranges
      (record { type = str; substr = (0, 1) }
        ∷ record { type = list_start; substr = (0, 0) }
        ∷ record { type = str; substr = (0, 2) }
        ∷ record { type = list_start; substr = (2, 0) }
        ∷ record { type = int; substr = (2, 3) }
        ∷ record { type = list_end; substr = (3, 0) }
        ∷ record { type = list_end; substr = (4, 0) }
        ∷ [])
      (codes "ab7")
      (new_torrent_file [])
      0
    ≡ filled (record (new_torrent_file []) { announce_list = codes "ab" ∷ codes "7" ∷ [] }) 7
fill_announce_list-strings_example =
    fill_announce_list-strings ranges (codes "ab7") [] [] (0, 1) (0, 0) (4, 0) nested_list
      (new_torrent_file [])

abbrev some_bytes : Bytes
some_bytes = 0 ∷ 65 ∷ 37 ∷ 255 ∷ []

unescape-hexer_example :
    (unescape outside (hexer some_bytes) ≡ some_bytes)
    × (length (hexer some_bytes) ≤ 3 * length some_bytes)
unescape-hexer_example =
    unescape-hexer some_bytes (omega arith, (omega arith, (omega arith, (omega arith, tt))))

abbrev hashes : Bytes
hashes = codes "abcdefghijklmnopqrstabcdefghijklmnopqrst"

one_file_bound :
    length (encode (Encoded.one_file (codes "http://a") 30 (codes "a") 20 hashes)) < 2 ^ 63
unfolding to_string
one_file_bound = omega arith

load-encode_example :
    (pieces : List Bytes) × ((j : ℕ) × ((load ranges first_bytes []
            (some (encode (Encoded.one_file (codes "http://a") 30 (codes "a") 20 hashes)))
          ≡ with_offsets
              (fill_piece_offsets (record (new_torrent_file []) {
                announce = codes "http://a";
                dir_name = codes "a";
                piece_size = 20;
                pieces = pieces;
                files =
                    record new_file {
                      size = 30;
                      path = codes "a" ∷ [];
                      dir_name = codes "/tmp/torrents/";
                    }
                    ∷ [];
                info_sha1 =
                    first_bytes (encode (struct false (info_values 30 (codes "a") 20 hashes)));
                info_sha1_string =
                    hexer
                      (first_bytes (encode (struct false (info_values 30 (codes "a") 20 hashes))));
              }))
              j)
        × ((join pieces ≡ hashes) × AreHashes pieces)))
load-encode_example =
    load-encode ranges first_bytes (λ from to. refl) (λ from to h. refl) (λ from to source h. refl)
      (λ sub source offset count. refl) [] (codes "http://a") 30 (codes "a") 20 hashes
      one_file_bound refl (omega arith) (omega arith) refl

-- A file system of directories
abbrev listed : Bytes → List Bytes → Option ℕ
listed path [] = none
listed path (p ∷ paths) =
    let rest = listed path paths in if equal p path then some (2 ^ 14) else rest

abbrev pub directories_only : FileSystem (ℕ → ℕ)
directories_only = record {
  State = List Bytes;
  stat = listed;
  mkdir = λ path s. path ∷ s;
  open_file = λ path s. (some (λ i. 0), s);
}

create_absolute_path-ensure_all_example :
    create_absolute_path in_memory directories_only (codes "/tmp/torrents/") []
    ≡ ensure_all in_memory directories_only (directories [] false (codes "/tmp/torrents/")) []
create_absolute_path-ensure_all_example =
    create_absolute_path-ensure_all in_memory directories_only (codes "/tmp/torrents/") []

-- The keys of a torrent: its announce, and its info dictionary before a comment.
abbrev announced : Values
announced = cons (text (codes "announce")) (cons (text (codes "http://ab")) nil)

abbrev info : Values
info = cons (text (codes "length")) (cons (number 30) nil)

abbrev commented : Values
commented = cons (text (codes "n")) (cons (text []) nil)

torrent_bound : length (encode (torrent announced info commented)) < 2 ^ 63
unfolding to_string
torrent_bound = omega arith

none_is_info :
    NoneIsInfo ranges first_bytes
      (encode (torrent announced info commented))
      (record { type = dict_start; substr = (0, 0) } ∷ all_tokens ranges.set 1 announced)
unfolding to_string
none_is_info = (refl, (refl, (refl, tt)))

calculate_info_sha1-value_example :
    (j : ℕ) × (calculate_info_sha1 ranges first_bytes
        (encode (torrent announced info commented))
        (tokens ranges.set 0 (torrent announced info commented))
        (new_torrent_file [])
        0
      ≡ filled
          (set_info_sha1 ranges first_bytes
            (encode (torrent announced info commented))
            (encode (struct false info))
            (new_torrent_file []))
          j)
calculate_info_sha1-value_example =
    calculate_info_sha1-value ranges first_bytes (λ from to. refl) (λ from to h. refl)
      (λ from to source h. refl) announced info commented torrent_bound (new_torrent_file []) 0
      none_is_info (omega arith, omega arith)
