-- ===== src/Swarm/Exclusive.antt =====
-- Which connection works on which piece, whatever the peers send.
use torrent_client.Base.{
  ℕ, ◌+◌, ◌<◌, ◌≡◌, ◌≢◌, refl, sym, subst, inl, inr, List, [], ◌∷◌, Option, none, some, sub64,
  minus_one, u64_mod, arith, Outcome,
}
use torrent_client.Platform.{Platform}
use torrent_client.PieceList.{PieceList, new_piece_list}
use torrent_client.PieceList.Handout.{count}
use torrent_client.Files.{File}
use torrent_client.PeerProtocol.{PeerProtocol, new_peer_protocol, get_message, front}
use torrent_client.PeerProtocol.Handlers.{process_message}
use torrent_client.PeerProtocol.Keeping.{Kept, process_message-Kept}
use torrent_client.PeerProtocol.Content.Frames.{state_of}
use torrent_client.Swarm.{
  Swarm, new_swarm, shared, closed, update, Step, joins, receives, fails, sends, closes, Reach,
  here, next,
}
use torrent_client.Swarm.Owning.{Owns, loses, gives, takes}
use torrent_client.Swarm.Apart.{update-cases, OthersOf, Inv, idle-Owns, busy-Owns, rebuild}

module _ (P : Platform) (Lost : ℕ → Type 0) where
  module _ (w : Swarm P) (v : Inv P Lost w) (k : ℕ) where
    -- What a call leaves of the index and the list.
    abbrev OwnsAfter : Outcome (PeerProtocol P) → Type 0
    OwnsAfter =
        let Other : ℕ → Type 0 = OthersOf P Lost w.peers k in
        Kept P (Owns Other) (loses Other) (gives Other) (takes Other)

    called-Owns :
        (s : PeerProtocol P) (received : List ℕ)
        → w.peers k ≡ some s
        → OwnsAfter (state_of P (process_message P received (shared P w s)))
    called-Owns s received e =
        let Other : ℕ → Type 0 = OthersOf P Lost w.peers k in
        process_message-Kept P (Owns Other) (loses Other) (gives Other) (takes Other) received
          (shared P w s) (busy-Owns P Lost w v k s e)

  abbrev index_or : ℕ → Option (PeerProtocol P) → ℕ
  index_or i none = i
  index_or i (some s) = s.piece_index

  front-same :
      (s : PeerProtocol P) (messages : List (List ℕ))
      → (front P messages s).1.piece_index ≡ s.piece_index
  front-same s [] = refl
  front-same s (m ∷ ms) = refl

  sent-same : (s : PeerProtocol P) → (get_message P s).1.piece_index ≡ s.piece_index
  unfolding get_message
  sent-same s = front-same s s.messages

  new-same :
      (files : List (File P)) (l : PieceList) (info_hash memory random : List ℕ) (garbage : ℕ)
      → (new_peer_protocol P files l info_hash memory random garbage).piece_index ≡ minus_one
  unfolding new_peer_protocol
  new-same files l info_hash memory random garbage = refl

  some-same :
      (s : PeerProtocol P) (i : ℕ)
      → s.piece_index ≡ i
      → (r : PeerProtocol P) → some s ≡ some r
      → r.piece_index ≡ i
  some-same s i x r e = subst (λ o. index_or i o ≡ i) e x

  none-same :
      (i : ℕ) (o : Option (PeerProtocol P)) (r : PeerProtocol P)
      → o ≡ none
      → o ≡ some r
      → r.piece_index ≡ i
  none-same i o r x e = cc

  module _ (Sends : PeerProtocol P → List ℕ → Type 0) where
    Step-Inv : {w u : Swarm P} → Step P Sends w u → Inv P Lost w → Inv P Lost u
    unfolding closed
    Step-Inv (joins w k info_hash memory random garbage) v =
        rebuild P Lost w v k minus_one w.piece_list w.files _ (idle-Owns P Lost w v k)
          (some-same _ minus_one (new-same w.files w.piece_list info_hash memory random garbage))
    Step-Inv (receives w k s s' received n e g o) v =
        rebuild P Lost w v k s'.piece_index s'.piece_list s'.files _
          (subst (λ r. OwnsAfter w v k (state_of P r)) o (called-Owns w v k s received e))
          (some-same s' s'.piece_index refl)
    Step-Inv (fails w k s s' received n x e g o) v =
        rebuild P Lost w v k s'.piece_index s'.piece_list s'.files none
          (subst (λ r. OwnsAfter w v k (state_of P r)) o (called-Owns w v k s received e))
          (λ r. none-same s'.piece_index none r refl)
    Step-Inv (sends w k s e) v =
        rebuild P Lost w v k s.piece_index w.piece_list w.files _ (busy-Owns P Lost w v k s e)
          (some-same _ s.piece_index (sent-same s))
    Step-Inv (closes w k s e) v =
        rebuild P Lost w v k minus_one w.piece_list w.files none (idle-Owns P Lost w v k)
          (λ r. none-same minus_one none r refl)

    Reach-Inv : {w u : Swarm P} → Inv P Lost w → Reach P Sends w u → Inv P Lost u
    Reach-Inv v here = v
    Reach-Inv v (next r t) = Step-Inv t (Reach-Inv v r)

-- Nothing is lost at the start.
new-Inv :
    (P : Platform) (Lost : ℕ → Type 0) (files : List (File P)) (n last size : ℕ)
    → ((i : ℕ) → ¬ (Lost i))
    → 0 < n
    → n < u64_mod
    → Inv P Lost (new_swarm P files (new_piece_list n last size))
unfolding new_piece_list
new-Inv P Lost files n last size none_lost p q =
    let max : sub64 n 1 + 1 ≡ n = omega (arith, p, q) in
    record {
      bounded = omega (arith, max, q);
      fresh = omega arith;
      returned = λ i m. omega arith;
      working = λ k s e m. cc;
      apart = λ j k r s d e f m x. cc;
      lost = λ i o. absurd (none_lost i o);
    }

-- The piece of a connection that is closed is lost.
closing-Inv :
    (P : Platform) (w : Swarm P) (k : ℕ) (s : PeerProtocol P)
    → Inv P (λ i. i ≢ i) w
    → w.peers k ≡ some s
    → s.piece_index ≢ minus_one
    → Inv P (λ i. i ≡ s.piece_index) (closed P k (shared P w s) w)
unfolding closed
closing-Inv P w k s v e m =
    let u =
      rebuild P (λ i. i ≢ i) w v k minus_one w.piece_list w.files none
        (idle-Owns P (λ i. i ≢ i) w v k) (λ r. none-same P (λ i. i ≢ i) minus_one none r refl) in
    let (a, b) = v.working k s e m in
    record {
      bounded = u.bounded;
      fresh = u.fresh;
      returned = u.returned;
      working = u.working;
      apart = u.apart;
      lost = λ i x n.
          subst
            (λ i.
              (count i w.piece_list.returned_pieces ≡ 0)
              × ((i < w.piece_list.next_piece)
                  × ((j : ℕ) (r : PeerProtocol P)
                      → update k none w.peers j ≡ some r
                      → r.piece_index ≢ i)))
            (sym x)
            (
              a,
              (
                b,
                λ j r f q. elim (update-cases k none w.peers j r f) [
                  | inl (c, d) ↦ cc
                  | inr (c, d) ↦ v.apart j k r s c d e m q
                ],
              ),
            );
    }

module _ (P : Platform) (Sends : PeerProtocol P → List ℕ → Type 0) where
  -- Whatever bytes the peers send, and whatever calls of however many connections, in any order and
  -- with exceptions and closed connections among them: no two open connections work on the same
  -- piece, and the piece that one works on was handed out and is not in the list of those to be
  -- handed out again. This is for the list of a torrent of at least one piece and below 2^64; the
  -- index -1 stands for no piece.
  pub Reach-apart :
      (files : List (File P)) (n last size : ℕ) (w : Swarm P) (k : ℕ) (s : PeerProtocol P)
      → 0 < n
      → n < u64_mod
      → Reach P Sends (new_swarm P files (new_piece_list n last size)) w
      → w.peers k ≡ some s
      → s.piece_index ≢ minus_one
      → ((j : ℕ) (r : PeerProtocol P) → j ≢ k → w.peers j ≡ some r → r.piece_index ≢ s.piece_index)
        × ((count s.piece_index w.piece_list.returned_pieces ≡ 0)
            × (s.piece_index < w.piece_list.next_piece))
  Reach-apart files n last size w k s p q reach e m =
      let v =
        Reach-Inv P (λ i. i ≢ i) Sends
          (new-Inv P (λ i. i ≢ i) files n last size (λ i x. x refl) p q) reach in
      (λ j r d f. v.apart j k r s d f e m, v.working k s e m)

  -- A piece on which a connection works when it is closed, by on_close and the destructor of its
  -- PeerProtocol, is lost for the rest of the run: in whatever follows, with whatever peers, no open
  -- connection works on it and it is not in the list of pieces to be handed out again, although it
  -- was handed out. This is for the list of a torrent of at least one piece and below 2^64; the
  -- index -1 stands for no piece.
  pub closed-lost :
      (files : List (File P)) (n last size : ℕ) (w u : Swarm P) (k : ℕ) (s : PeerProtocol P)
      → 0 < n
      → n < u64_mod
      → Reach P Sends (new_swarm P files (new_piece_list n last size)) w
      → w.peers k ≡ some s
      → s.piece_index ≢ minus_one
      → Reach P Sends (closed P k (shared P w s) w) u
      → ((j : ℕ) (r : PeerProtocol P) → u.peers j ≡ some r → r.piece_index ≢ s.piece_index)
        × ((count s.piece_index u.piece_list.returned_pieces ≡ 0)
            × (s.piece_index < u.piece_list.next_piece))
  closed-lost files n last size w u k s p q reach e m further =
      let v =
        Reach-Inv P (λ i. i ≢ i) Sends
          (new-Inv P (λ i. i ≢ i) files n last size (λ i x. x refl) p q) reach in
      let at = Reach-Inv P (λ i. i ≡ s.piece_index) Sends (closing-Inv P w k s v e m) further in
      let (a, (b, c)) = at.lost s.piece_index refl m in (c, (a, b))
