-- ===== src/Examples/Starts.antt =====
-- A run of main up to its sockets, on a torrent with one file.
use torrent_client.Base.{ℕ, ◌≡◌, refl, Bytes, codes, List, [], Option, some, none, true, length}
use torrent_client.Base.Decimal.{to_string}
use torrent_client.BeParser.{parse}
use torrent_client.TokenListProcessor.{process, stoll}
use torrent_client.TorrentFile.{fill_piece_offsets, place_files, place_file}
use torrent_client.TorrentFile.Reading.{fill_announce}
use torrent_client.TorrentFile.Reading.Info.{fill_info}
use torrent_client.TorrentFile.InfoHash.{calculate_info_sha1}
use torrent_client.TorrentFile.Loading.{load}
use torrent_client.PieceList.{new_piece_list}
use torrent_client.Files.Opening.{
  open_files, open_file, enter_directories, create_absolute_path, create_loop, ensure,
}
use torrent_client.DownloadManager.{
  Url, insert_torrent, generate_url, generate_init_http_request, valid_url, request_path,
  is_available,
}
use torrent_client.Main.Start.{Started, started, start}
use torrent_client.Examples.Platforms.{in_memory}
use torrent_client.Examples.Loads.{ranges, first_bytes, one_file, directories_only}

abbrev no_port : Url
no_port = record { valid = true; proto = codes "http"; host = codes "ab"; port = []; tail = [] }

abbrev with_port : Url
with_port = record no_port { port = codes "65616" }

-- The port and the number of files of a session
abbrev ports : Started in_memory (List Bytes) → Option (ℕ × ℕ)
ports (started s) = some (s.port, length s.files)
ports other = none

start-no_port :
    ports (
      start in_memory directories_only ranges first_bytes
        (λ text. no_port)
        (λ host. true)
        []
        (some one_file)
        [])
    ≡ some (80, 1)
unfolding start load parse process fill_announce fill_info stoll calculate_info_sha1
    fill_piece_offsets place_files place_file open_files open_file enter_directories
    create_absolute_path create_loop ensure insert_torrent generate_url generate_init_http_request
    valid_url request_path is_available new_piece_list to_string
start-no_port = refl

-- A port above 65535 is cut to 16 bits.
start-with_port :
    ports (
      start in_memory directories_only ranges first_bytes
        (λ text. with_port)
        (λ host. true)
        []
        (some one_file)
        [])
    ≡ some (80, 1)
unfolding start load parse process fill_announce fill_info stoll calculate_info_sha1
    fill_piece_offsets place_files place_file open_files open_file enter_directories
    create_absolute_path create_loop ensure insert_torrent generate_url generate_init_http_request
    valid_url request_path is_available new_piece_list to_string
start-with_port = refl
