-- ===== src/Swarm/Written.antt =====
-- What all connections together write to the files.
use torrent_client.Base.{
  ℕ, ◌≡◌, refl, subst, inl, inr, List, [], ◌∷◌, Option, none, some, Bool-cases, ◌==◌,
}
use torrent_client.Platform.{Platform}
use torrent_client.PieceList.{PieceList}
use torrent_client.Files.{File}
use torrent_client.PeerProtocol.{PeerProtocol, new_peer_protocol, get_message, front}
use torrent_client.PeerProtocol.Handlers.{process_message}
use torrent_client.PeerProtocol.Content.{
  Torrent, Fits, IsStocked, Works, Saves, nothing, Keeps, Ends, AreGenuine, messages_in,
}
use torrent_client.PeerProtocol.Content.Picking.{Works-elsewhere}
use torrent_client.PeerProtocol.Content.Frames.{state_of, process_message-Ends}
use torrent_client.Swarm.{
  Swarm, new_swarm, shared, closed, update, Step, joins, receives, fails, sends, closes, Reach,
  here, next,
}

module _ (P : Platform) (torrent : Torrent) where
  -- The peers send the handshake and messages of an honest peer.
  abbrev pub Honest : PeerProtocol P → List ℕ → Type 0
  Honest s received = AreGenuine P torrent (messages_in P torrent s.state received)

  abbrev pub Works? : Option (PeerProtocol P) → Type 0
  Works? none = Unit {0}
  Works? (some s) = Works P torrent s

  -- What every run keeps.
  pub record Inv (fs : List (File P)) (w : Swarm P) : Type 0 where
    pub stocked : IsStocked P torrent w.piece_list
    pub saves : Saves P torrent fs w.files
    pub works : (k : ℕ) → Works? (w.peers k)

  update-Works :
      (k : ℕ) (o : Option (PeerProtocol P)) (peers : ℕ → Option (PeerProtocol P))
      → Works? o
      → ((i : ℕ) → Works? (peers i))
      → (i : ℕ) → Works? (update k o peers i)
  update-Works k o peers h all i = elim (Bool-cases (i == k)) [
    | inl t ↦ rw t h
    | inr t ↦ rw t (all i)
  ]

  new-Works :
      (files : List (File P)) (l : PieceList) (info_hash memory random : List ℕ) (garbage : ℕ)
      → Works P torrent (new_peer_protocol P files l info_hash memory random garbage)
  unfolding new_peer_protocol
  new-Works files l info_hash memory random garbage =
      inl (record { no_size = refl; no_index = refl })

  front-Works :
      (s : PeerProtocol P) (messages : List (List ℕ))
      → Works P torrent s
      → Works P torrent (front P messages s).1
  front-Works s [] h = h
  front-Works s (m ∷ ms) h =
      Works-elsewhere P torrent s s.state s.clients_pieces s.offset s.files s.piece_list ms h

  sent-Works : (s : PeerProtocol P) → Works P torrent s → Works P torrent (get_message P s).1
  unfolding get_message
  sent-Works s h = front-Works s s.messages h

  module _ (fits : Fits torrent) where
    pub called-Ends :
        (fs : List (File P)) (w : Swarm P) (k : ℕ) (s : PeerProtocol P) (received : List ℕ)
        → Inv fs w
        → w.peers k ≡ some s
        → Honest s received
        → Ends P torrent fs (state_of P (process_message P received (shared P w s)))
    called-Ends fs w k s received v e g =
        process_message-Ends P torrent fits fs received (shared P w s) g (record {
          works =
              Works-elsewhere P torrent s s.state s.clients_pieces s.offset w.files w.piece_list
                s.messages (subst Works? e (v.works k));
          stocked = v.stocked;
          saves = v.saves;
        })

    pub start-Inv :
        (fs : List (File P)) (l : PieceList) → IsStocked P torrent l → Inv fs (new_swarm P fs l)
    start-Inv fs l h = record { stocked = h; saves = nothing; works = λ k. tt }

    Step-Inv : (fs : List (File P)) {w u : Swarm P} → Step P Honest w u → Inv fs w → Inv fs u
    unfolding closed
    Step-Inv fs (joins w k info_hash memory random garbage) v = record {
      stocked = v.stocked;
      saves = v.saves;
      works =
          update-Works k _ w.peers (new-Works w.files w.piece_list info_hash memory random garbage)
            v.works;
    }
    Step-Inv fs (receives w k s s' received n e g o) v =
        let kept : Keeps P torrent fs s' =
          subst (λ r. Ends P torrent fs (state_of P r)) o (called-Ends fs w k s received v e g) in
        record {
          stocked = kept.stocked;
          saves = kept.saves;
          works = update-Works k (some s') w.peers kept.works v.works;
        }
    Step-Inv fs (fails w k s s' received n x e g o) v =
        let (stocked, saves) =
          subst (λ r. Ends P torrent fs (state_of P r)) o (called-Ends fs w k s received v e g) in
        record { stocked = stocked; saves = saves; works = update-Works k none w.peers tt v.works }
    Step-Inv fs (sends w k s e) v = record {
      stocked = v.stocked;
      saves = v.saves;
      works = update-Works k _ w.peers (sent-Works s (subst Works? e (v.works k))) v.works;
    }
    Step-Inv fs (closes w k s e) v = record {
      stocked = v.stocked;
      saves = v.saves;
      works = update-Works k none w.peers tt v.works;
    }

    pub Reach-Inv : (fs : List (File P)) {w u : Swarm P} → Inv fs w → Reach P Honest w u → Inv fs u
    Reach-Inv fs v here = v
    Reach-Inv fs v (next r t) = Step-Inv fs t (Reach-Inv fs v r)

    -- As long as all peers are honest, whatever calls of however many connections, in any order and
    -- with exceptions and closed connections among them: what they have written to the files is,
    -- piece by piece, the content of whole pieces of the torrent, and each open connection works on
    -- nothing or on a piece whose bytes so far are those of the content. This is for a list of
    -- pieces that gives out pieces of the torrent with their sizes, all below 2^64.
    pub Reach-Saves :
        (fs : List (File P)) (l : PieceList) (w : Swarm P)
        → IsStocked P torrent l
        → Reach P Honest (new_swarm P fs l) w
        → Saves P torrent fs w.files
          × ((k : ℕ) (s : PeerProtocol P) → w.peers k ≡ some s → Works P torrent s)
    Reach-Saves fs l w h r =
        let v = Reach-Inv fs (start-Inv fs l h) r in (v.saves, λ k s e. subst Works? e (v.works k))
