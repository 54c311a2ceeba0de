-- ===== src/Examples/Trackers.antt =====
-- Concrete answers of trackers, and a torrent with its announces.
use torrent_client.Base.{
  length, ◌<◌, ◌^◌, ℕ, ◌≡◌, ◌≢◌, refl, Bytes, codes, List, [], ◌∷◌, ◌++◌, take, drop, length-take,
  some, none, Bool, true, false, not, ◌&&◌, ◌==◌, arith,
}
use torrent_client.BeParser.{BeToken, done, parse}
use torrent_client.TokenListProcessor.{filled, process}
use torrent_client.TorrentFile.{TorrentFile}
use torrent_client.TorrentFile.Loading.{new_torrent_file}
use torrent_client.TrackerResponse.Filling.{fill_peers, respond}
use torrent_client.Base.Decimal.{to_string}
use torrent_client.BeParser.Encoding.{encode}
use torrent_client.TrackerResponse.Encoded.{answer, answered, respond-encode}
use torrent_client.TrackerResponse.Peers.{Endpoint}
use torrent_client.DownloadManager.{
  Url, made, is_available, generate_init_http_request, request_path, generate_url,
}
use torrent_client.DownloadManager.Announces.{generate_url-first}
use torrent_client.TrackerConnection.{
  Sockets, TrackerConnection, returns, never, wait_for_read, on_read, header_end, connect_peers,
}
use torrent_client.TrackerConnection.Answer.{on_read-ends}
use torrent_client.TrackerConnection.Header.{IsPlain, AreLines, http_header}
use torrent_client.TrackerConnection.Clients.{EndsConnected, on_read-Connects}
use torrent_client.ActiveSockets.{remove}
use torrent_client.Examples.Loads.{ranges}

abbrev first_peer : Endpoint
first_peer = record { a = 10; b = 0; c = 0; d = 1; port = 6881 }

abbrev second_peer : Endpoint
second_peer = record { a = 10; b = 0; c = 0; d = 2; port = 80 }

abbrev some_peers : List Endpoint
some_peers = first_peer ∷ second_peer ∷ []

some_answer_bound : length (encode (answer 900 some_peers)) < 2 ^ 63
unfolding to_string
some_answer_bound = omega arith

respond-encode_example :
    (all : List (BeToken (ℕ × ℕ))) × ((parse ranges.set (encode (answer 900 some_peers))
        ≡ done all (length (encode (answer 900 some_peers))))
      × (respond ranges (λ bytes. some bytes) (λ ip port. none) all (encode (answer 900 some_peers))
          ≡ filled (answered (λ bytes. bytes) 900 some_peers) 6))
respond-encode_example =
    respond-encode ranges (λ bytes. bytes) (λ ip port. none) (λ from to. refl) (λ from to h. refl)
      (λ from to source h. refl) 900 first_peer (second_peer ∷ []) some_answer_bound (omega arith)

-- A socket that gives the bytes of an answer, and a client for each address.
abbrev answering : Sockets
answering = record {
  State = Bytes;
  read = λ size answer. (take size answer, drop size answer);
  write = λ bytes answer. answer;
  remote_ip = λ answer. record { address = 0; port = 0 };
  create_tcp_client = λ saddr answer. (some (record { address = 1; port = 2 }), answer);
  attach_client_logic = λ peer answer. answer;
  add_to_poller_read = λ answer. answer;
  add_to_poller_write = λ answer. answer;
}

abbrev some_url : Url
some_url = record { valid = true; proto = codes "http"; host = codes "a.b"; port = []; tail = [] }

abbrev reading : TrackerConnection
reading = record {
  state = wait_for_read;
  url = some_url;
  active_sockets = record { address = 1; port = 2 } ∷ [];
}

abbrev an_answer : Bytes
an_answer = codes "HTTP/1.1 200 OK\r\n\r\nd5:peers6:abcdefe"

on_read-ends_example :
    on_read answering ranges (λ bytes. some bytes) (λ ip port. none) reading an_answer ≢ never
on_read-ends_example =
    on_read-ends answering (λ size answer. omega (arith, length-take size answer)) ranges
      (λ bytes. some bytes) (λ ip port. none) reading an_answer

-- The peer of the answer becomes a client, and is taken out of the set.
an_answer_read :
    on_read answering ranges (λ bytes. some bytes) (λ ip port. none) reading an_answer
    ≡ returns (record reading { active_sockets = [] }) []
unfolding on_read header_end parse respond process fill_peers connect_peers remove
an_answer_read = refl

abbrev two_announces : TorrentFile
two_announces = record (new_torrent_file []) {
  announce = codes "http://local";
  announce_list = codes "http://a.b" ∷ codes "http://c.d" ∷ [];
}

skipped : is_available (λ text. some_url) (λ host. true) (codes "http://local") ≡ false
unfolding is_available
skipped = refl

available : is_available (λ text. some_url) (λ host. true) (codes "http://a.b") ≡ true
unfolding is_available
available = refl

generate_url-first_example :
    (request : Bytes) × ((generate_init_http_request two_announces
          (codes "-2345678901234567890")
          12345
        ≡ made request)
      × (generate_url (λ text. some_url) (λ host. true) (two_announces ∷ [])
          ≡ made (request_path (λ text. some_url) (λ host. true) some_url ++ request)))
generate_url-first_example =
    generate_url-first (λ text. some_url) (λ host. true) two_announces []
      (codes "http://local" ∷ []) (codes "http://c.d" ∷ []) (codes "http://a.b") refl (skipped, tt)
      available refl

abbrev status_line : Bytes
status_line = codes "HTTP/1.0 200 OK"

abbrev tracker_says : Bytes
tracker_says = http_header (status_line ∷ []) ++ encode (answer 900 some_peers)

is_plain : Bytes → Bool
is_plain [] = true
is_plain (c ∷ cs) = not (c == 0) && (not (c == 13) && is_plain cs)

is_plain-IsPlain : (l : Bytes) → is_plain l ≡ true → IsPlain l
unfolding is_plain
is_plain-IsPlain [] h = tt
is_plain-IsPlain (c ∷ cs) h =
    (λ e. ground arith, (λ e. ground arith, is_plain-IsPlain cs (ground arith)))

status_line-AreLines : AreLines (status_line ∷ [])
unfolding is_plain
status_line-AreLines = (omega arith, (is_plain-IsPlain status_line refl, tt))

on_read-Connects_example :
    EndsConnected answering some_peers reading []
      (on_read answering ranges (λ bytes. some bytes) (λ ip port. none) reading tracker_says)
unfolding to_string
on_read-Connects_example =
    on_read-Connects answering ranges (λ bytes. bytes) (λ ip port. none) (λ from to. refl)
      (λ from to h. refl) (λ from to source h. refl) 900 first_peer (second_peer ∷ []) reading
      tracker_says [] status_line [] (tracker_says ∷ []) refl status_line-AreLines (omega arith)
      refl (omega arith) (omega arith, ([], (refl, refl)))
