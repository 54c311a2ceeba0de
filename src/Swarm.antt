-- ===== src/Swarm.antt =====
-- All connections of the program: the files and the list of pieces that main.cpp makes and hands to
-- each of them by reference, and the PeerProtocol of each. One call of a connection is one step, as
-- the tasks of the pool run it (client_logic.cpp).
pub mod Written
pub mod Regular
pub mod Defined
pub mod Owning
pub mod Apart
pub mod Exclusive
use torrent_client.Base.{
  ℕ, ◌≡◌, List, Option, none, some, ◌==◌, if◌then◌else◌, Outcome, ok, throws, Exception,
}
use torrent_client.Platform.{Platform}
use torrent_client.PieceList.{PieceList}
use torrent_client.Files.{File}
use torrent_client.PeerProtocol.{PeerProtocol, new_peer_protocol, get_message, destroy}
use torrent_client.PeerProtocol.Handlers.{process_message}

abbrev pub update : {A : Type 0} → ℕ → A → (ℕ → A) → ℕ → A
update k v f i = if i == k then v else f i

module _ (P : Platform) where
  -- The connections by their sockets; the files and pieces in a connection itself are not read.
  pub record Swarm : Type 0 where
    pub files : List (File P)
    pub piece_list : PieceList
    pub peers : ℕ → Option (PeerProtocol P)

  abbrev pub new_swarm : List (File P) → PieceList → Swarm
  new_swarm files piece_list = record { files = files; piece_list = piece_list; peers = λ k. none }

  -- The connection with what all share.
  abbrev pub shared : Swarm → PeerProtocol P → PeerProtocol P
  shared w s = record s { files = w.files; piece_list = w.piece_list }

  -- What a call has done to the shared objects, and the connection afterwards.
  abbrev pub after : ℕ → PeerProtocol P → Option (PeerProtocol P) → Swarm → Swarm
  after k s left w = record {
    files = s.files;
    piece_list = s.piece_list;
    peers = update k left w.peers;
  }

  -- ClientLogic::on_close, which only prints
  unfoldable pub on_close : PeerProtocol P → PeerProtocol P
  on_close s = s

  -- What a connection in this state leaves of the others and the shared objects when it is closed.
  unfoldable pub closed : ℕ → PeerProtocol P → Swarm → Swarm
  unfolding on_close destroy
  closed k s w = after k (destroy P (on_close s)) none w

  -- One call of one connection, where its peer sends only bytes that `Sends` allows in that state.
  -- After an exception perform closes the socket, and nothing calls the connection any more.
  pub data Step (Sends : PeerProtocol P → List ℕ → Type 0) : Swarm → Swarm → Type 0 where
    joins :
        (w : Swarm) (k : ℕ) (info_hash memory random : List ℕ) (garbage : ℕ)
        → Step Sends w (record w {
          peers =
              update k
                (some (new_peer_protocol P w.files w.piece_list info_hash memory random garbage))
                w.peers;
        })
    receives :
        (w : Swarm) (k : ℕ) (s s' : PeerProtocol P) (received : List ℕ) (processed : ℕ)
        → w.peers k ≡ some s
        → Sends s received
        → process_message P received (shared w s) ≡ ok (s', processed)
        → Step Sends w (after k s' (some s') w)
    fails :
        (w : Swarm) (k : ℕ) (s s' : PeerProtocol P) (received : List ℕ) (processed : ℕ)
        (e : Exception)
        → w.peers k ≡ some s
        → Sends s received
        → process_message P received (shared w s) ≡ throws e (s', processed)
        → Step Sends w (closed k s' w)
    sends :
        (w : Swarm) (k : ℕ) (s : PeerProtocol P)
        → w.peers k ≡ some s
        → Step Sends w (record w { peers = update k (some (get_message P s).1) w.peers })
    closes :
        (w : Swarm) (k : ℕ) (s : PeerProtocol P)
        → w.peers k ≡ some s
        → Step Sends w (closed k (shared w s) w)

  pub data Reach (Sends : PeerProtocol P → List ℕ → Type 0) (w : Swarm) : Swarm → Type 0 where
    here : Reach Sends w w
    next : {u v : Swarm} → Reach Sends w u → Step Sends u v → Reach Sends w v
