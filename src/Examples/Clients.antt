-- ===== src/Examples/Clients.antt =====
-- The theorems on client_logic.cpp at concrete inputs.
use torrent_client.Base.{ℕ, ◌≡◌, refl, List, [], ◌∷◌, ◌++◌, ok, throws, int_thrown, take, arith}
use torrent_client.Messages.{ntohl_at}
use torrent_client.PeerProtocol.{handshaking, protocol_name, has_message}
use torrent_client.PeerProtocol.Handlers.{process_message, process_frames}
use torrent_client.ClientLogic.{
  ClientLogic, wait_for_read, wait_for_write, receive, on_read, on_write, turn_to_write,
}
use torrent_client.ClientLogic.Stream.{IsIdle, Handles, concat}
use torrent_client.ClientLogic.Turns.{
  IsTurned, on_read-Handles, start-IsIdle, on_read_part_of_handshake,
}
use torrent_client.Examples.Platforms.{in_memory}
use torrent_client.Examples.Peers.{connection, some_pieces, twenty}

abbrev client : ClientLogic in_memory
client = record { state = wait_for_read; buffer = []; protocol = connection some_pieces }

-- A keep-alive and the first byte of the next message, in two reads.
abbrev reads : List (List ℕ)
reads = (0 ∷ 0 ∷ []) ∷ (0 ∷ 0 ∷ 0 ∷ []) ∷ []

abbrev client_after : ClientLogic in_memory
client_after = record client { buffer = 0 ∷ [] }

client_read : on_read in_memory reads client ≡ ok client_after
unfolding on_read receive process_message process_frames ntohl_at turn_to_write has_message
client_read = refl

on_read-Handles_example :
    Handles in_memory (concat reads) client client_after
    × IsIdle in_memory client_after
    × IsTurned in_memory client_after
on_read-Handles_example =
    on_read-Handles in_memory reads client client_after refl (start-IsIdle in_memory client refl)
      client_read

-- Thirty bytes of a handshake.
abbrev new_connection : ClientLogic in_memory
new_connection = record client {
  protocol = record (connection some_pieces) { state = handshaking };
}

on_read_part_of_handshake_example :
    let bytes = take 30 (19 ∷ (protocol_name ++ (twenty 0 ++ (twenty 1 ++ twenty 2)))) in
    on_read in_memory (bytes ∷ []) new_connection
    ≡ throws (int_thrown 1) (record new_connection { buffer = bytes })
on_read_part_of_handshake_example =
    on_read_part_of_handshake in_memory 30 (twenty 0 ++ (twenty 1 ++ twenty 2)) [] new_connection
      refl refl refl (omega arith) (omega arith) (omega arith)

-- Two messages wait.
abbrev writing : ClientLogic in_memory
writing = record client {
  state = wait_for_write;
  protocol = record (connection some_pieces) { messages = (1 ∷ []) ∷ (2 ∷ 3 ∷ []) ∷ [] };
}

both_written : on_write in_memory writing ≡ (
  (1 ∷ []) ∷ (2 ∷ 3 ∷ []) ∷ [],
  record writing {
    protocol = record (connection some_pieces) { messages = [] };
    state = wait_for_read;
  },
)
unfolding on_write
both_written = refl
