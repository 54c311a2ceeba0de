-- ===== src/Main/Start.antt =====
-- main.cpp: what main makes of a torrent file before it waits for events. Url and IpAddr are from
-- another library; `finds_host` says whether IpAddr::set finds a host.
use torrent_client.Base.{ℕ, ◌%◌, ◌^◌, Bytes, List, [], Option, Bool, if◌then◌else◌, length}
use torrent_client.Platform.{Platform}
use torrent_client.SubStrings.{SubStrings}
use torrent_client.TokenListProcessor.{
  Filled, filled, raised, undefined_behaviour, unfinished, number, no_number, stoll,
}
use torrent_client.TorrentFile.{TorrentFile}
use torrent_client.TorrentFile.Loading.{load}
use torrent_client.Files.{File}
use torrent_client.Files.Opening.{FileSystem, Opened, opened, refused, out_of_fuel, open_files}
use torrent_client.PieceList.{PieceList, new_piece_list}
use torrent_client.DownloadManager.{
  Url, Made, made, failed, no_torrent, is_empty, insert_torrent, generate_url,
}

-- What the connection to the tracker gets: the info hash, the files, the pieces, the address with its
-- port, and the file system as it is left.
pub record Session (P : Platform) (S : Type 0) : Type 0 where
  pub info_hash : Bytes
  pub files : List (File P)
  pub piece_list : PieceList
  pub url : Url
  pub port : ℕ
  pub file_system : S

-- An exception ends the program.
pub data Started (P : Platform) (S : Type 0) : Type 0 where
  started : Session P S → Started P S
  terminated : Started P S
  undefined : Started P S
  never : Started P S

module _ (P : Platform) (fs : FileSystem P.Fd) (ss : SubStrings) (sha1 : Bytes → Bytes)
    (url_of : Bytes → Url) (finds_host : Bytes → Bool) where
  -- The port of the address, 80 where it has none: a uint16_t
  abbrev pub port_of : Url → (ℕ → Started P fs.State) → Started P fs.State
  port_of url k =
      if is_empty url.port
      then k 80
      else elim (stoll url.port) [ number n ↦ k (n % 2 ^ 16) | no_number e ↦ terminated ]

  abbrev pub connect : TorrentFile → List (File P) → fs.State → Url → ℕ → Started P fs.State
  connect t files s url port =
      if finds_host url.host
      then started (record {
        info_hash = t.info_sha1;
        files = files;
        piece_list = new_piece_list (length t.pieces) t.last_piece_size t.piece_size;
        url = url;
        port = port;
        file_system = s;
      })
      else terminated

  abbrev pub with_url : TorrentFile → List (File P) → fs.State → Made → Started P fs.State
  with_url t files s (made address) = port_of (url_of address) (connect t files s (url_of address))
  with_url t files s (failed e) = terminated
  with_url t files s no_torrent = undefined

  abbrev pub with_files : TorrentFile → Opened fs.State (List (File P)) → Started P fs.State
  with_files t (opened files s) =
      with_url t files s (generate_url url_of finds_host (insert_torrent t []))
  with_files t (refused e s) = terminated
  with_files t Opened.undefined_behaviour = undefined
  with_files t out_of_fuel = never

  abbrev pub with_torrent : Filled TorrentFile → fs.State → Started P fs.State
  with_torrent (filled t i) s = with_files t (open_files P fs t.files t.piece_size s)
  with_torrent (raised e) s = terminated
  with_torrent undefined_behaviour s = undefined
  with_torrent unfinished s = never

  -- main up to its sockets, with the path of the torrent file and its bytes
  unfoldable pub start : Bytes → Option Bytes → fs.State → Started P fs.State
  start path content s = with_torrent (load ss sha1 path content) s
