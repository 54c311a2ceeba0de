-- ===== src/Examples/Peers.antt =====
-- The theorems on message_types.hpp and peer_protocol.cpp at concrete inputs.
use torrent_client.Base.{
  ℕ, ◌+◌, ◌*◌, ◌/◌, ◌%◌, ◌^◌, ◌≤◌, ◌<◌, ◌≡◌, refl, List, [], ◌∷◌, ◌++◌, true, false, length, get_or,
  take, drop, arith,
}
use torrent_client.Messages.{request_message, piece_message, have_message, ntohl_at}
use torrent_client.Messages.Fields.{
  request_message_fields, piece_message_fields, have_message_reversed,
}
use torrent_client.Piece.{new_piece}
use torrent_client.Piece.Cover.{covered}
use torrent_client.Piece.Requested.{AreRequested}
use torrent_client.PieceList.{PieceList}
use torrent_client.PeerProtocol.{PeerProtocol, acting, create_request, get_piece_index}
use torrent_client.PeerProtocol.Handlers.{process_message}
use torrent_client.PeerProtocol.Portions.{then_portion, process_message_in_portions}
use torrent_client.PeerProtocol.Requests.{requests_for, blocks_of, create_request-requests}
use torrent_client.PeerProtocol.Choosing.{
  Chosen, Pollutes, get_piece_index-Chosen, get_piece_index-Pollutes,
}
use torrent_client.PeerProtocol.Greeting.{handshake_lem}
use torrent_client.PeerProtocol.{handshake, protocol_name}
use torrent_client.Examples.Platforms.{in_memory}

request_message_fields_example :
    let bytes = request_message 3 16384 70000 ++ (1 ∷ []) in
    (length (request_message 3 16384 70000) ≡ 17)
    × (ntohl_at bytes 0 ≡ 13)
    × (get_or bytes 4 0 ≡ 6)
    × (ntohl_at bytes 5 ≡ 3)
    × (ntohl_at bytes 9 ≡ 16384)
    × (ntohl_at bytes 13 ≡ 70000)
request_message_fields_example =
    request_message_fields 3 16384 70000 (1 ∷ []) (omega arith) (omega arith) (omega arith)

piece_message_fields_example :
    let bytes = piece_message 11 3 16384 ++ (1 ∷ 2 ∷ []) in
    (length (piece_message 11 3 16384) ≡ 13)
    × (ntohl_at bytes 0 ≡ 11)
    × (get_or bytes 4 0 ≡ 7)
    × (ntohl_at bytes 5 ≡ 3)
    × (ntohl_at bytes 9 ≡ 16384)
piece_message_fields_example =
    piece_message_fields 11 3 16384 (1 ∷ 2 ∷ []) (omega arith) (omega arith) (omega arith)

have_message_reversed_example :
    ntohl_at (have_message 3 ++ []) 5
    ≡ (3 % 256) * 2 ^ 24 + (3 / 2 ^ 8 % 256) * 2 ^ 16 + (3 / 2 ^ 16 % 256) * 2 ^ 8 + 3 / 2 ^ 24
have_message_reversed_example = have_message_reversed 3 [] (omega arith)

-- A connection behind its handshake, to a peer that has every piece, with the list of pieces.
abbrev pub connection : PieceList → PeerProtocol in_memory
connection pl = record {
  state = acting;
  clients_pieces = λ i. true;
  piece_index = 0;
  piece_size = 20000;
  offset = 0;
  piece = new_piece;
  files = [];
  piece_list = pl;
  messages = [];
}

abbrev pub some_pieces : PieceList
some_pieces = record {
  max_piece_num = 2;
  last_piece_size = 5;
  piece_size = 20000;
  next_piece = 0;
  returned_pieces = [];
}

-- A keep-alive, an unchoke, and the length of a message that has not come.
abbrev received : List ℕ
received = 0 ∷ 0 ∷ 0 ∷ 0 ∷ 0 ∷ 0 ∷ 0 ∷ 1 ∷ 1 ∷ 0 ∷ 0 ∷ 0 ∷ []

process_message_in_portions_example :
    process_message in_memory (received ++ (1 ∷ 1 ∷ [])) (connection some_pieces)
    ≡ then_portion in_memory received
        (1 ∷ 1 ∷ [])
        (process_message in_memory received (connection some_pieces))
process_message_in_portions_example =
    process_message_in_portions in_memory received (1 ∷ 1 ∷ []) (connection some_pieces)

create_request-requests_example :
    ((create_request in_memory (connection some_pieces)).messages
      ≡ [] ++ requests_for 0 (blocks_of 20000))
    × AreRequested 20000 (blocks_of 20000)
    × ((i : ℕ) → i < 20000 → covered i (blocks_of 20000) ≡ true)
    × (20000 ≤ (create_request in_memory (connection some_pieces)).offset)
create_request-requests_example =
    create_request-requests in_memory (connection some_pieces) (omega arith)

get_piece_index-Chosen_example :
    Chosen in_memory (connection some_pieces) (get_piece_index in_memory (connection some_pieces))
get_piece_index-Chosen_example = get_piece_index-Chosen in_memory (connection some_pieces)

-- The three pieces are handed out, and the peer has none.
abbrev no_pieces : PieceList
no_pieces = record some_pieces { next_piece = 3 }

abbrev unlucky : PeerProtocol in_memory
unlucky = record (connection no_pieces) { clients_pieces = λ i. false }

get_piece_index-Pollutes_example : Pollutes in_memory unlucky (get_piece_index in_memory unlucky)
get_piece_index-Pollutes_example =
    get_piece_index-Pollutes in_memory unlucky refl (omega arith) (λ e. omega arith) refl

-- The array holds 68 times the byte 7.
abbrev pub twenty : ℕ → List ℕ
twenty b = b ∷ b ∷ b ∷ b ∷ b ∷ b ∷ b ∷ b ∷ b ∷ b ∷ b ∷ b ∷ b ∷ b ∷ b ∷ b ∷ b ∷ b ∷ b ∷ b ∷ []

abbrev eight : List ℕ
eight = take 8 (twenty 7)

handshake_lem_example :
    handshake (7 ∷ (drop 1 (twenty 7) ++ (eight ++ (twenty 7 ++ twenty 7)))) (twenty 1) (twenty 48)
    ≡ 19 ∷ (protocol_name ++ (eight ++ (twenty 1 ++ twenty 48)))
handshake_lem_example =
    handshake_lem 7 (drop 1 (twenty 7)) eight (twenty 7) (twenty 7) (twenty 1) (twenty 48) refl refl
      refl refl refl refl
