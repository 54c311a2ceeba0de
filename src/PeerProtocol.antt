-- ===== src/PeerProtocol.antt =====
-- class PeerProtocol of peer_protocol.hpp and peer_protocol.cpp: one connection to a peer, with the
-- files and the list of pieces that all connections share.
pub mod Handlers
pub mod Bits
pub mod Requests
pub mod Framing
pub mod Acting
pub mod Past
pub mod Resuming
pub mod Portions
pub mod Leftover
pub mod Choosing
pub mod Greeting
pub mod Content
pub mod Keeping
use torrent_client.Base.{
  ℕ, zero, suc, ◌+◌, ◌-◌, ◌/◌, ◌%◌, ◌^◌, List, [], ◌∷◌, ◌++◌, Option, none, some, Bool, true, false,
  ◌&&◌, ◌||◌, not, ltb, leb, ◌==◌, if◌then◌else◌, add64, sub64, u32_mod, u64_mod, minus_one,
  Outcome, ok, throws, undefined, int_thrown, ◌>>=◌, get_or, take, drop, length, write_at,
}
use torrent_client.Platform.{Platform}
use torrent_client.Messages.{ntohl_at, interested_message, request_message, num_of_types}
use torrent_client.Piece.{Piece, Buffer, new_piece}
use torrent_client.Piece
use torrent_client.PieceList.{PieceList, get_piece, return_piece, number_of_pieces}
use torrent_client.Files.{File, write_piece}

abbrev pub handshake_size : ℕ
handshake_size = 68

abbrev pub block_size : ℕ
block_size = 2 ^ 14

-- "BitTorrent protocol"
abbrev pub protocol_name : List ℕ
protocol_name =
    b'B' ∷ b'i' ∷ b't' ∷ b'T' ∷ b'o' ∷ b'r' ∷ b'r' ∷ b'e' ∷ b'n' ∷ b't' ∷ b' ' ∷ b'p' ∷ b'r' ∷ b'o'
    ∷ b't' ∷ b'o' ∷ b'c' ∷ b'o' ∷ b'l' ∷ []

-- PeerProtocol::State
pub data State : Type 0 where
  handshaking acting : State

-- PeerProtocol::handshake, into the 68 bytes that the new array holds, with 20 random digits.
unfoldable pub handshake : List ℕ → List ℕ → List ℕ → List ℕ
handshake memory info_hash random =
    write_at 48 random
      (write_at 28 info_hash (write_at 1 protocol_name (write_at 0 (19 ∷ []) memory)))

-- The bytes behind a pointer into a list, for a copy from it.
abbrev pub bytes_from : List ℕ → ℕ → ℕ → ℕ
bytes_from bytes start i = get_or bytes (start + i) 0

module _ (P : Platform) where
  -- A message that waits to be sent is the list of its bytes.
  pub record PeerProtocol : Type 0 where
    pub state : State
    pub clients_pieces : P.BitSet
    pub piece_index : ℕ
    pub piece_size : ℕ
    pub offset : ℕ
    pub piece : Piece
    pub files : List (File P)
    pub piece_list : PieceList
    pub messages : List (List ℕ)

  -- PeerProtocol::PeerProtocol, with the memory and the digits for the handshake; m_offset starts
  -- with whatever the memory holds.
  unfoldable pub new_peer_protocol :
      List (File P) → PieceList → List ℕ → List ℕ → List ℕ → ℕ → PeerProtocol
  unfolding handshake
  new_peer_protocol files pl info_hash memory random garbage = record {
    state = handshaking;
    clients_pieces = P.bind (number_of_pieces pl / 8 + 1) P.no_bits;
    piece_index = minus_one;
    piece_size = 0;
    offset = garbage;
    piece = new_piece;
    files = files;
    piece_list = pl;
    messages = handshake memory info_hash random ∷ [];
  }

  -- PeerProtocol::~PeerProtocol, and what it leaves of the shared objects
  unfoldable pub destroy : PeerProtocol → PeerProtocol
  destroy s = s

  abbrev pub front : List (List ℕ) → PeerProtocol → List ℕ × PeerProtocol
  front [] s = ([], s)
  front (m ∷ ms) s = (m, record s { messages = ms })

  -- PeerProtocol::get_message; the empty message has size 0.
  unfoldable pub get_message : PeerProtocol → List ℕ × PeerProtocol
  get_message s = front s.messages s

  -- PeerProtocol::has_message
  abbrev pub is_empty : List (List ℕ) → Bool
  is_empty [] = true
  is_empty (m ∷ ms) = false

  unfoldable pub has_message : PeerProtocol → Bool
  has_message s = not (is_empty s.messages)

  abbrev pub push_message : List ℕ → PeerProtocol → PeerProtocol
  push_message m s = record s { messages = s.messages ++ m ∷ [] }

  -- PeerProtocol::create_interested
  unfoldable pub create_interested : PeerProtocol → PeerProtocol
  create_interested s = push_message interested_message s

  -- The body of the loop of create_request.
  unfoldable pub request_block : PeerProtocol → PeerProtocol
  request_block s =
      let size =
        if ltb s.piece_size (add64 s.offset block_size)
        then sub64 s.piece_size s.offset
        else block_size in
      record (push_message
        (request_message (s.piece_index % u32_mod) (s.offset % u32_mod) (size % u32_mod)) s) {
          offset = add64 s.offset block_size;
        }

  unfoldable pub request_blocks : ℕ → PeerProtocol → PeerProtocol
  request_blocks zero s = s
  request_blocks (suc fuel) s =
      let rest = request_blocks fuel (request_block s) in
      if ltb s.offset s.piece_size then rest else s

  -- PeerProtocol::create_request; the loop has a round for each block of the piece.
  unfoldable pub create_request : PeerProtocol → PeerProtocol
  unfolding request_blocks request_block
  create_request s = request_blocks (s.piece_size / block_size + 1) (record s { offset = 0 })

  -- One attempt of get_piece_index: the piece that the list gives, and whether the peer has it.
  unfoldable pub take_piece : PeerProtocol → PeerProtocol
  take_piece s =
      let given = get_piece s.piece_list in
      record s { piece_size = given.size; piece_index = given.piece_index; piece_list = given.rest }

  unfoldable pub wants : PeerProtocol → Bool
  wants s = not (s.piece_size == 0) && P.test s.piece_index s.clients_pieces

  unfoldable pub put_back : PeerProtocol → PeerProtocol
  put_back s = record s {
    piece_size = 0;
    piece_list = return_piece s.piece_index s.piece_list;
    piece_index = minus_one;
  }

  unfoldable pub attempts : ℕ → PeerProtocol → PeerProtocol
  attempts zero s = s
  attempts (suc n) s =
      let s' = take_piece s in
      let again = attempts n (put_back s') in if wants s' then s' else again

  abbrev pub max_attempts : ℕ
  max_attempts = 20

  -- Whether the bits that so many attempts read are there; without a piece none is read.
  unfoldable pub reads_bits : ℕ → PeerProtocol → Bool
  unfolding take_piece wants put_back
  reads_bits zero s = true
  reads_bits (suc n) s =
      let s' = take_piece s in
      let again = reads_bits n (put_back s') in
      (s'.piece_size == 0 || P.has s'.piece_index s'.clients_pieces) && (wants s' || again)

  -- What the attempts lead to.
  unfoldable pub chosen_piece : PeerProtocol → Bool × PeerProtocol
  unfolding attempts take_piece wants put_back
  chosen_piece s =
      let s' = attempts max_attempts s in
      if s'.piece_size == 0 then (false, s') else (
        true,
        record s' {
          piece = Piece.init s'.piece_index s'.piece_size (P.new_bytes s'.piece_size) s'.piece;
        },
      )

  -- PeerProtocol::get_piece_index; to read a bit that is not there is undefined.
  unfoldable pub get_piece_index : PeerProtocol → Outcome (Bool × PeerProtocol)
  unfolding reads_bits chosen_piece
  get_piece_index s = if reads_bits max_attempts s then ok (chosen_piece s) else undefined

  abbrev pub request_if : Bool × PeerProtocol → PeerProtocol
  request_if (true, s) = create_request s
  request_if (false, s) = s

  -- if (get_piece_index()) create_request();
  abbrev pub request_for : Outcome (Bool × PeerProtocol) → Outcome PeerProtocol
  request_for (ok r) = ok (request_if r)
  request_for (throws e (found, s)) = throws e s
  request_for undefined = undefined

  unfoldable pub next_piece : PeerProtocol → Outcome PeerProtocol
  unfolding get_piece_index create_request
  next_piece s = request_for (get_piece_index s)
