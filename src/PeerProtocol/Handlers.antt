-- ===== src/PeerProtocol/Handlers.antt =====
-- peer_protocol.cpp: the handlers of the messages from the peer, and process_message, which cuts the
-- received bytes into messages.
use torrent_client.Base.{
  ℕ, zero, suc, ◌+◌, ◌-◌, List, Option, none, some, not, ltb, ◌==◌, if◌then◌else◌, sub64, minus_one,
  Outcome, ok, throws, undefined, int_thrown, ◌>>=◌, get_or, take, drop, length,
}
use torrent_client.Platform.{Platform}
use torrent_client.Messages.{ntohl_at, num_of_types}
use torrent_client.Piece.{Piece, Buffer}
use torrent_client.Piece
use torrent_client.PieceList.{return_piece}
use torrent_client.Files.{File, write_piece}
use torrent_client.PeerProtocol.{
  PeerProtocol, State, handshaking, acting, handshake_size, bytes_from, create_interested,
  next_piece,
}

module _ (P : Platform) where
  -- A handler gets the bytes of its message. A field that the message is too short for would be
  -- read from whatever stands behind it in memory: undefined, as is a bit that BitSet does not have.
  unfoldable pub process_choke : PeerProtocol P → PeerProtocol P
  process_choke s = record s {
    piece_list = return_piece s.piece_index s.piece_list;
    piece_index = minus_one;
    piece_size = 0;
    piece = Piece.clear s.piece;
  }

  unfoldable pub process_have : List ℕ → PeerProtocol P → Outcome (PeerProtocol P)
  process_have frame s =
      if ltb (length frame) 9
      then undefined
      else if P.has (ntohl_at frame 5) s.clients_pieces
      then ok (record s { clients_pieces = P.mark (ntohl_at frame 5) s.clients_pieces })
      else undefined

  unfoldable pub process_bitfield : List ℕ → PeerProtocol P → PeerProtocol P
  unfolding create_interested
  process_bitfield frame s = create_interested P (record s {
    clients_pieces = P.bind_data (sub64 (length frame) 5) (drop 5 frame) s.clients_pieces;
  })

  abbrev pub store_files : PeerProtocol P → Outcome (List (File P)) → Outcome (PeerProtocol P)
  store_files s (ok fs) = ok (record s { files = fs })
  store_files s (throws e fs) = throws e (record s { files = fs })
  store_files s undefined = undefined

  -- The bytes of the piece go to the files; get has left the piece empty.
  abbrev pub write_buffer : PeerProtocol P → Option Buffer → Outcome (PeerProtocol P)
  write_buffer s none = undefined
  write_buffer s (some m) =
      store_files s (write_piece P s.piece_index m.byte_at s.piece_size s.files)

  unfoldable pub finish_piece : PeerProtocol P → Outcome (PeerProtocol P)
  finish_piece s =
      let (buffer, rest) = Piece.get s.piece in
      write_buffer (record s { piece = rest }) buffer >>= λ s'.
      next_piece P (record s' { offset = 0; piece_index = minus_one })

  abbrev pub store_piece : PeerProtocol P → Outcome Piece → Outcome (PeerProtocol P)
  store_piece s (ok p) = ok (record s { piece = p })
  store_piece s (throws e p) = throws e (record s { piece = p })
  store_piece s undefined = undefined

  unfoldable pub finish_if_full : PeerProtocol P → Outcome (PeerProtocol P)
  unfolding finish_piece
  finish_if_full s = if Piece.full s.piece then finish_piece s else ok s

  unfoldable pub add_bytes : List ℕ → PeerProtocol P → Outcome (PeerProtocol P)
  add_bytes frame s = store_piece s (
      Piece.add (ntohl_at frame 5) (bytes_from frame 13) (sub64 (sub64 (length frame) 5) 8)
        (ntohl_at frame 9) s.piece)

  unfoldable pub process_piece : List ℕ → PeerProtocol P → Outcome (PeerProtocol P)
  unfolding add_bytes finish_if_full
  process_piece frame s =
      if ltb (length frame) 9
      then undefined
      else if not (ntohl_at frame 5 == s.piece_index)
      then ok s
      else if ltb (length frame) 13
      then undefined
      else (add_bytes frame s >>= finish_if_full)

  -- PROCESS_IN_MESSAGE: the handlers by message type; from 10 on `throw 1`.
  unfoldable pub dispatch : ℕ → List ℕ → PeerProtocol P → Outcome (PeerProtocol P)
  unfolding process_choke process_have process_bitfield process_piece next_piece
  dispatch id frame s =
      if id == 0
      then ok (process_choke s)
      else if id == 1
      then next_piece P s
      else if id == 4
      then process_have frame s
      else if id == 5
      then ok (process_bitfield frame s)
      else if id == 7
      then process_piece frame s
      else if ltb id num_of_types
      then ok s
      else throws (int_thrown 1) s

  -- The state after some messages, and the bytes from `curr` on.
  abbrev pub Progress : Type 0
  Progress = PeerProtocol P × List ℕ

  abbrev pub continue :
      Outcome (PeerProtocol P) → List ℕ → (PeerProtocol P → Outcome Progress) → Outcome Progress
  continue (ok s) rest k = k s
  continue (throws e s) rest k = throws e (s, rest)
  continue undefined rest k = undefined

  -- The loop of process_message over the bytes that are left, with fuel for its rounds.
  unfoldable pub process_frames : ℕ → List ℕ → PeerProtocol P → Outcome Progress
  process_frames zero rest s = ok (s, rest)
  process_frames (suc fuel) rest s =
      let message_size = ntohl_at rest 0 in
      let keep_alive = process_frames fuel (drop 4 rest) s in
      let handled =
        continue (dispatch (get_or rest 4 0) (take (message_size + 4) rest) s) rest
          (process_frames fuel (drop (message_size + 4) rest)) in
      if not (ltb 4 (length rest))
      then ok (s, rest)
      else if message_size == 0
      then keep_alive
      else if ltb (length rest) (message_size + 4)
      then ok (s, rest)
      else handled

  abbrev pub start_from : State → List ℕ → PeerProtocol P → Outcome Progress
  start_from acting received s = process_frames (length received + 1) received s
  start_from handshaking received s =
      if ltb (length received) handshake_size
      then ok (s, received)
      else process_frames (length received + 1) (drop handshake_size received)
          (record s { state = acting })

  abbrev pub counted : ℕ → Outcome Progress → Outcome (PeerProtocol P × ℕ)
  counted n (ok (s, rest)) = ok (s, n - length rest)
  counted n (throws e (s, rest)) = throws e (s, n - length rest)
  counted n undefined = undefined

  -- PeerProtocol::process_message: the state and the number of bytes that were processed.
  unfoldable pub process_message : List ℕ → PeerProtocol P → Outcome (PeerProtocol P × ℕ)
  unfolding process_frames dispatch
  process_message received s = counted (length received) (start_from s.state received s)
