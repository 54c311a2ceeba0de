-- ===== src/Examples/Swarms.antt =====
-- A connection that fetches the only piece of a torrent with a file of three bytes.
use torrent_client.Base.{
  ℕ, zero, suc, ◌+◌, ◌<◌, ◌≡◌, refl, inl, List, [], ◌∷◌, ◌++◌, some, false, Outcome, ok, throws,
  undefined, drop, arith,
}
use torrent_client.Messages.{ntohl_at, interested_message, request_message}
use torrent_client.TorrentFile.{FileInfo, TorrentFile}
use torrent_client.TorrentFile.Offsets.{located, located_all}
use torrent_client.PieceList.{PieceList, new_piece_list, get_piece, return_piece}
use torrent_client.Files.{File, new_file, write_piece, write_file}
use torrent_client.Piece
use torrent_client.PeerProtocol.{PeerProtocol, acting, bytes_from, new_peer_protocol, next_piece}
use torrent_client.PeerProtocol.Handlers.{process_message}
use torrent_client.PeerProtocol.Content.{
  Torrent, AreGenuine, ends, whole, Saves, nothing, Works, Ends,
}
use torrent_client.Swarm.{
  Swarm, update, new_swarm, shared, after, Reach, here, next, joins, receives,
}
use torrent_client.Swarm.Written.{Honest, Reach-Saves}
use torrent_client.Swarm.Regular.{IsRegular, torrent_of, torrent_of-Fits, torrent_of-IsStocked}
use torrent_client.PeerProtocol.Content.Frames.{state_of, process_message-Ends}
use torrent_client.Piece.{new_piece}
use torrent_client.Examples.Platforms.{in_memory}
use torrent_client.Examples.Peers.{twenty}

abbrev three_bytes : TorrentFile
three_bytes = record {
  announce_list = [];
  pieces = [] ∷ [];
  files =
      record {
        path = (97 ∷ []) ∷ [];
        dir_name = 47 ∷ [];
        md5_sum = [];
        size = 3;
        first_piece = record { index = 0; offset = 0 };
        last_piece = record { index = 0; offset = 0 };
      }
      ∷ [];
  path = [];
  announce = [];
  comment = [];
  created_by = [];
  encoding = [];
  dir_name = [];
  info_sha1 = [];
  info_sha1_string = [];
  creation_date = 0;
  piece_size = 16;
  last_piece_size = 0;
  full_size = 0;
  private_flag = 0;
}

abbrev three_bytes_placed : TorrentFile
three_bytes_placed = record three_bytes {
  files = located_all 16 0 three_bytes.files;
  full_size = 3;
  last_piece_size = 3;
}

regular : IsRegular three_bytes
regular = record {
  unplaced = refl;
  some_files = λ e. cc;
  none_empty = omega arith;
  ends_within = ((λ e. omega arith), tt);
  has_pieces = omega arith;
  bounded = omega arith;
}

-- Byte i of each piece is 65 + i.
abbrev pub letters : ℕ → ℕ → ℕ
letters id i = 65 + i

abbrev pub file_info : FileInfo
file_info = located 16 0 3 (record {
  path = (97 ∷ []) ∷ [];
  dir_name = 47 ∷ [];
  md5_sum = [];
  size = 3;
  first_piece = record { index = 0; offset = 0 };
  last_piece = record { index = 0; offset = 0 };
})

abbrev pub files : List (File in_memory)
files =
    record { bitset = λ i. false; info = file_info; piece_size = 16; full = false; fd = λ i. 0 }
    ∷ []

abbrev pub pieces : PieceList
pieces = new_piece_list 1 3 16

abbrev pub swarm : Swarm in_memory
swarm = new_swarm in_memory files pieces

-- A handshake, the bitfield and an unchoke.
abbrev pub greeting : List ℕ
greeting =
    twenty 1
    ++ (twenty 2
        ++ (twenty 3
            ++ (1 ∷ 2 ∷ 3 ∷ 4 ∷ 5 ∷ 6 ∷ 7 ∷ 8 ∷ 0 ∷ 0 ∷ 0 ∷ 2 ∷ 5 ∷ 128 ∷ 0 ∷ 0 ∷ 0 ∷ 1 ∷ 1 ∷ [])))

-- The piece.
abbrev piece_bytes : List ℕ
piece_bytes = 0 ∷ 0 ∷ 0 ∷ 12 ∷ 7 ∷ 0 ∷ 0 ∷ 0 ∷ 0 ∷ 0 ∷ 0 ∷ 0 ∷ 0 ∷ 65 ∷ 66 ∷ 67 ∷ []

abbrev torrent : Torrent
torrent = torrent_of three_bytes letters

abbrev pub new_connection : PeerProtocol in_memory
new_connection = new_peer_protocol in_memory files pieces (twenty 9) [] (twenty 48) 0

abbrev protocol_of : Outcome (PeerProtocol in_memory × ℕ) → PeerProtocol in_memory
protocol_of (ok (s, n)) = s
protocol_of (throws e (s, n)) = s
protocol_of undefined = new_connection

abbrev pub joined : Swarm in_memory
joined = record swarm { peers = update 0 (some new_connection) swarm.peers }

-- It has asked for the piece.
abbrev pub greeted_connection : PeerProtocol in_memory
greeted_connection = record {
  state = acting;
  clients_pieces = in_memory.bind_data 1 (128 ∷ []) (λ i. false);
  piece_index = 0;
  piece_size = 3;
  offset = 16384;
  piece = record {
    buffer = some (record { capacity = 3; byte_at = λ i. 0 });
    id = 0;
    full_piece_size = 3;
    blocks = [];
  };
  files = files;
  piece_list = record {
    max_piece_num = 0;
    last_piece_size = 3;
    piece_size = 16;
    next_piece = 1;
    returned_pieces = [];
  };
  messages = [] ∷ interested_message ∷ request_message 0 0 3 ∷ [];
}

abbrev pub greeted : Swarm in_memory
greeted = after in_memory 0 greeted_connection (some greeted_connection) joined

abbrev fetched_connection : PeerProtocol in_memory
fetched_connection =
    protocol_of
      (process_message in_memory piece_bytes (shared in_memory greeted greeted_connection))

abbrev fetched : Swarm in_memory
fetched = after in_memory 0 fetched_connection (some fetched_connection) greeted

pub greeting-processed :
    process_message in_memory greeting (shared in_memory joined new_connection)
    ≡ ok (greeted_connection, 79)
unfolding process_message next_piece new_peer_protocol new_piece_list get_piece return_piece
    ntohl_at Piece.init
greeting-processed = refl

block-processed :
    process_message in_memory piece_bytes (shared in_memory greeted greeted_connection)
    ≡ ok (fetched_connection, 16)
unfolding process_message next_piece new_peer_protocol new_piece_list get_piece return_piece
    ntohl_at Piece.init Piece.add Piece.full Piece.get write_piece new_file write_file
block-processed = refl

-- The bytes of the piece are in the file.
byte_of : List (File in_memory) → ℕ → ℕ
byte_of [] i = 0
byte_of (f ∷ fs) i = f.fd i

fetched-bytes : byte_of fetched.files 0 ∷ byte_of fetched.files 2 ∷ [] ≡ 65 ∷ 67 ∷ []
unfolding process_message next_piece new_peer_protocol new_piece_list get_piece return_piece
    ntohl_at Piece.init Piece.add Piece.full Piece.get write_piece new_file write_file byte_of
fetched-bytes = refl

greeting-AreGenuine : AreGenuine in_memory torrent (drop 68 greeting)
unfolding ntohl_at
greeting-AreGenuine =
    whole (0 ∷ 0 ∷ 0 ∷ 2 ∷ 5 ∷ 128 ∷ 0 ∷ 0 ∷ 0 ∷ 1 ∷ 1 ∷ []) (omega arith) (λ e. omega arith)
      (omega arith) ((λ e. omega arith), (λ e. absurd (omega arith)))
      (whole (0 ∷ 0 ∷ 0 ∷ 1 ∷ 1 ∷ []) (omega arith) (λ e. omega arith) (omega arith)
        ((λ e. omega arith), (λ e. absurd (omega arith))) (ends [] (inl (omega arith))))

genuine_bytes : (i : ℕ) → i < 3 → bytes_from piece_bytes 13 i ≡ 65 + (0 + i)
genuine_bytes zero l = refl
genuine_bytes (suc zero) l = refl
genuine_bytes (suc (suc zero)) l = refl
genuine_bytes (suc (suc (suc i))) l = absurd (omega arith)

block-AreGenuine : AreGenuine in_memory torrent piece_bytes
unfolding ntohl_at new_piece_list
block-AreGenuine =
    whole piece_bytes (omega arith) (λ e. omega arith) (omega arith)
      (
        (λ e. omega arith),
        λ e. record {
          some_bytes = omega arith;
          bounded = omega arith;
          index_fits = omega arith;
          inside = omega arith;
          genuine = genuine_bytes;
        },
      )
      (ends [] (inl (omega arith)))

fetches : Reach in_memory (Honest in_memory torrent) swarm fetched
unfolding new_peer_protocol
fetches =
    next
      (next (next here (joins swarm 0 (twenty 9) [] (twenty 48) 0)) (
        receives joined 0 new_connection greeted_connection greeting 79 refl greeting-AreGenuine
          greeting-processed))
      (receives greeted 0 greeted_connection fetched_connection piece_bytes 16 refl block-AreGenuine
        block-processed)

Reach-Saves_example :
    Saves in_memory torrent files fetched.files
    × ((k : ℕ) (s : PeerProtocol in_memory) → fetched.peers k ≡ some s → Works in_memory torrent s)
Reach-Saves_example =
    Reach-Saves in_memory torrent (torrent_of-Fits three_bytes regular letters) files pieces fetched
      (torrent_of-IsStocked three_bytes regular in_memory letters) fetches

process_message-Ends_example : Ends in_memory torrent files (
    state_of in_memory
      (process_message in_memory greeting (shared in_memory joined new_connection)))
unfolding new_peer_protocol
process_message-Ends_example =
    process_message-Ends in_memory torrent (torrent_of-Fits three_bytes regular letters) files
      greeting (shared in_memory joined new_connection) greeting-AreGenuine
      (record {
        works = inl (record { no_size = refl; no_index = refl });
        stocked = torrent_of-IsStocked three_bytes regular in_memory letters;
        saves = nothing;
      })
