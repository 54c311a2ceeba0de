-- ===== src/DownloadManager.antt =====
-- class DownloadManager of download_manager.hpp and download_manager.cpp: the torrents, and the
-- address of the first request to a tracker. Url is from another library: what its constructor
-- makes of a text is a parameter, and so is whether IpAddr::set finds a host.
pub mod Announces
use Prim.Native.String.{String}
use torrent_client.Base.{
  ℕ, ◌+◌, ◌-◌, Bytes, codes, equal, find_part, Option, none, some, to_string, List, [], ◌∷◌, ◌++◌,
  Bool, true, false, ◌&&◌, ◌||◌, not, ◌==◌, if◌then◌else◌, take, length,
}
use torrent_client.TokenListProcessor.{
  Filled, filled, raised, undefined_behaviour, unfinished, Error, runtime_error,
}
use torrent_client.TorrentFile.{TorrentFile}

pub record Url : Type 0 where
  pub valid : Bool
  pub proto : Bytes
  pub host : Bytes
  pub port : Bytes
  pub tail : Bytes

-- m_torrents, in the order of the map
abbrev pub DownloadManager : Type 0
DownloadManager = List TorrentFile

abbrev pub has_path : Bytes → DownloadManager → Bool
has_path path [] = false
has_path path (t ∷ torrents) = equal t.path path || has_path path torrents

-- add_torrent_file of a TorrentFile: an equal one stays.
unfoldable pub insert_torrent : TorrentFile → DownloadManager → DownloadManager
insert_torrent t torrents = if has_path t.path torrents then torrents else t ∷ torrents

-- add_torrent_file of a path, from what the constructor of TorrentFile does. The exceptions are
-- caught.
unfoldable pub add_torrent_file : Filled TorrentFile → DownloadManager → Filled DownloadManager
unfolding insert_torrent
add_torrent_file (filled t i) torrents = filled (insert_torrent t torrents) 0
add_torrent_file (raised e) torrents = filled torrents 0
add_torrent_file undefined_behaviour torrents = undefined_behaviour
add_torrent_file unfinished torrents = unfinished

-- A text, or the exception of the function that makes it, or undefined behaviour
pub data Made : Type 0 where
  made : Bytes → Made
  failed : String → Made
  no_torrent : Made

abbrev pub make_then : Made → (Bytes → Made) → Made
make_then (made text) k = k text
make_then (failed e) k = failed e
make_then no_torrent k = no_torrent

-- find of a part, against npos
abbrev pub contains : Bytes → Bytes → Bool
contains part text = elim (find_part part text) [ none ↦ false | some n ↦ true ]

abbrev pub is_empty : Bytes → Bool
is_empty [] = true
is_empty (c ∷ text) = false

unfoldable pub generate_init_http_request : TorrentFile → Bytes → ℕ → Made
generate_init_http_request t peer_id port =
    if length peer_id == 20
    then made (
        codes "info_hash="
        ++ t.info_sha1_string
        ++ codes "&peer_id="
        ++ peer_id
        ++ codes "&port="
        ++ to_string port
        ++ codes "&uploaded="
        ++ codes "0"
        ++ codes "&downloaded="
        ++ codes "0"
        ++ codes "&left="
        ++ to_string t.full_size
        ++ codes "&numwant="
        ++ codes "1000"
        ++ codes "&compact="
        ++ codes "1"
        ++ codes "&event="
        ++ codes "started")
    else failed "peer_id string must be 20 char long"

module _ (url_of : Bytes → Url) (finds_host : Bytes → Bool) where
  -- The guards of the loop over the announces
  unfoldable pub is_available : Bytes → Bool
  is_available announce =
      let url = url_of announce in
      not (contains (codes "local") announce)
      && (url.valid
          && ((is_empty url.proto || equal url.proto (codes "http")) && finds_host url.host))

  -- The loop: valid_url behind it
  unfoldable pub valid_url : List Bytes → Bytes
  unfolding is_available
  valid_url [] = []
  valid_url (announce ∷ rest) =
      let later = valid_url rest in if is_available announce then announce else later

  -- The part of the address in front of the parameters
  unfoldable pub request_path : Url → Bytes
  request_path url =
      let tail = codes "/" ++ take (length url.tail - 1) url.tail in
      let port = if is_empty url.port then [] else codes ":" ++ url.port in
      let delim = if contains (codes "?") tail then codes "&" else codes "?" in
      let path = if is_empty url.tail then codes "/" else tail ++ delim in
      url.host ++ (port ++ path)

  abbrev pub url_for : TorrentFile → Bytes → Made
  url_for t announce =
      if is_empty announce
      then failed "no valid announce"
      else make_then (generate_init_http_request t (codes "-2345678901234567890") 12345)
          (λ request. made (request_path (url_of announce) ++ request))

  unfoldable pub generate_url : DownloadManager → Made
  unfolding valid_url request_path generate_init_http_request
  generate_url [] = no_torrent
  generate_url (t ∷ torrents) = url_for t (valid_url (t.announce ∷ t.announce_list))
