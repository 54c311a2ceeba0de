-- ===== src/ClientLogic.antt =====
-- class ClientLogic of client_logic.hpp and client_logic.cpp: the receive buffer and the turns of one
-- connection. A call of the socket is an argument: the bytes of each read until one gives none.
pub mod Stream
pub mod Turns
use torrent_client.Base.{
  ℕ, zero, suc, ◌+◌, ◌-◌, List, [], ◌∷◌, ◌++◌, Option, none, some, Bool, true, false, ◌&&◌, ltb,
  ◌==◌, if◌then◌else◌, Outcome, ok, throws, undefined, int_thrown, ◌>>=◌, get_or, drop, length,
}
use torrent_client.Platform.{Platform}
use torrent_client.PeerProtocol.{PeerProtocol, get_message, has_message, is_empty}
use torrent_client.PeerProtocol.Handlers.{process_message}

pub data ClientState : Type 0 where
  error wait_for_read wait_for_write : ClientState

abbrev pub buffer_capacity : ℕ
buffer_capacity = 500000

-- What on_rearm asks the poller for.
pub data Action : Type 0 where
  read write : Action

module _ (P : Platform) where
  -- `buffer` is the first buffer_size bytes of the array.
  pub record ClientLogic : Type 0 where
    pub state : ClientState
    pub buffer : List ℕ
    pub protocol : PeerProtocol P

  -- ClientLogic::ClientLogic
  abbrev pub new_client : PeerProtocol P → ClientLogic
  new_client s = record { state = wait_for_write; buffer = []; protocol = s }

  -- The buffer after some of its bytes were processed.
  abbrev pub left_in_buffer : ℕ → List ℕ → List ℕ
  left_in_buffer processed bytes = if ltb processed (length bytes) then drop processed bytes else []

  abbrev pub none_processed : ClientLogic → Outcome ClientLogic
  none_processed c =
      if ltb 5 (length c.buffer) && ltb 8 (get_or c.buffer 4 0)
      then throws (int_thrown 1) c
      else if length c.buffer == buffer_capacity
      then throws (int_thrown 1) c
      else ok c

  abbrev pub some_processed : ClientLogic → Outcome ClientLogic
  some_processed c = if length c.buffer == buffer_capacity then throws (int_thrown 1) c else ok c

  -- The rest of the loop's body, behind process_message.
  abbrev pub after_message : ClientLogic → Outcome (PeerProtocol P × ℕ) → Outcome ClientLogic
  after_message c (ok (s, processed)) =
      if processed == 0
      then none_processed (record c { protocol = s })
      else some_processed (record c { protocol = s; buffer = left_in_buffer processed c.buffer })
  after_message c (throws e (s, processed)) = throws (int_thrown 1) (record c { protocol = s })
  after_message c undefined = undefined

  -- The loop's body for the bytes of one read. A read gives at most as many as there is room for.
  unfoldable pub receive : List ℕ → ClientLogic → Outcome ClientLogic
  unfolding process_message
  receive bytes c =
      if ltb (buffer_capacity - length c.buffer) (length bytes)
      then undefined
      else after_message (record c { buffer = c.buffer ++ bytes })
          (process_message P (c.buffer ++ bytes) c.protocol)

  unfoldable pub receive_reads : List (List ℕ) → ClientLogic → Outcome ClientLogic
  unfolding receive
  receive_reads [] c = ok c
  receive_reads (bytes ∷ reads) c = receive bytes c >>= receive_reads reads

  unfoldable pub turn_to_write : ClientLogic → ClientLogic
  unfolding has_message
  turn_to_write c = if has_message P c.protocol then record c { state = wait_for_write } else c

  abbrev pub read_in : ClientState → List (List ℕ) → ClientLogic → Outcome ClientLogic
  read_in wait_for_read reads c = receive_reads reads c >>= λ c'. ok (turn_to_write c')
  read_in error reads c = ok c
  read_in wait_for_write reads c = ok c

  -- ClientLogic::on_read
  unfoldable pub on_read : List (List ℕ) → ClientLogic → Outcome ClientLogic
  unfolding receive_reads turn_to_write
  on_read reads c = read_in c.state reads c

  -- The loop of on_write: the messages that go to the socket, and the connection without them.
  unfoldable pub write_messages : ℕ → PeerProtocol P → List (List ℕ) × PeerProtocol P
  unfolding get_message
  write_messages zero s = ([], s)
  write_messages (suc fuel) s =
      let (m, s') = get_message P s in
      let (sent, s'') = write_messages fuel s' in
      if length m == 0 then ([], s') else (m ∷ sent, s'')

  abbrev pub write_in : ClientState → ClientLogic → List (List ℕ) × ClientLogic
  write_in wait_for_write c =
      let (sent, s) = write_messages (length c.protocol.messages + 1) c.protocol in
      (
        sent,
        record c {
          protocol = s;
          state = if is_empty P sent then wait_for_write else wait_for_read;
        },
      )
  write_in error c = ([], c)
  write_in wait_for_read c = ([], c)

  -- ClientLogic::on_write; what the socket does with a message does not come back.
  unfoldable pub on_write : ClientLogic → List (List ℕ) × ClientLogic
  unfolding write_messages
  on_write c = write_in c.state c

  -- ClientLogic::on_rearm
  abbrev pub action_for : ClientState → Option Action
  action_for wait_for_write = some write
  action_for wait_for_read = some read
  action_for error = none

  unfoldable pub on_rearm : ClientLogic → Option Action
  on_rearm c = action_for c.state
