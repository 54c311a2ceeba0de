-- ===== src/Swarm/Apart.antt =====
-- What all connections and the list of pieces they share have in common: the invariant behind
-- Exclusive, and one call of one connection against it.
use torrent_client.Base.{
  ℕ, ◌+◌, ◌≤◌, ◌<◌, ◌≡◌, ◌≢◌, refl, sym, subst, ◌∙◌, ◌⊎◌, inl, inr, List, Option, some, Bool-cases,
  ltb, ◌==◌, ==_iff, ==→ne, ne→==, if◌then◌else◌, minus_one, arith,
}
use torrent_client.Platform.{Platform}
use torrent_client.PieceList.{PieceList}
use torrent_client.PieceList.Handout.{count}
use torrent_client.Files.{File}
use torrent_client.PeerProtocol.{PeerProtocol}
use torrent_client.Swarm.{Swarm, update}
use torrent_client.Swarm.Owning.{Owns, not_held, held-free, held-apart}

pub update-cases :
    {A : Type 0} (k : ℕ) (v : Option A) (f : ℕ → Option A) (j : ℕ) (a : A)
    → update k v f j ≡ some a
    → ((j ≡ k) × (v ≡ some a)) ⊎ ((j ≢ k) × (f j ≡ some a))
update-cases k v f j a e = elim (Bool-cases (j == k)) [
  | inl t ↦ inl ((==_iff j k).0 t, rw t at e)
  | inr t ↦ inr (==→ne j k t, rw t at e)
]

module _ (P : Platform) (Lost : ℕ → Type 0) where
  -- The pieces of all connections but one, and those that are lost.
  unfoldable pub OthersOf : (ℕ → Option (PeerProtocol P)) → ℕ → ℕ → Type 0
  OthersOf peers k i =
      Lost i
      ⊎ ((j : ℕ) × ((s : PeerProtocol P) × ((j ≢ k) × ((peers j ≡ some s) × (s.piece_index ≡ i)))))

  pub record Inv (w : Swarm P) : Type 0 where
    pub bounded : w.piece_list.max_piece_num < minus_one
    pub fresh : w.piece_list.next_piece ≤ w.piece_list.max_piece_num + 1
    pub returned :
        (i : ℕ)
        → i ≢ minus_one
        → count i w.piece_list.returned_pieces ≤ (if ltb i w.piece_list.next_piece then 1 else 0)
    pub working :
        (k : ℕ) (s : PeerProtocol P)
        → w.peers k ≡ some s
        → s.piece_index ≢ minus_one
        → (count s.piece_index w.piece_list.returned_pieces ≡ 0)
          × (s.piece_index < w.piece_list.next_piece)
    pub apart :
        (j k : ℕ) (r s : PeerProtocol P)
        → j ≢ k
        → w.peers j ≡ some r
        → w.peers k ≡ some s
        → s.piece_index ≢ minus_one
        → r.piece_index ≢ s.piece_index
    pub lost :
        (i : ℕ)
        → Lost i
        → i ≢ minus_one
        → (count i w.piece_list.returned_pieces ≡ 0)
          × ((i < w.piece_list.next_piece)
              × ((k : ℕ) (s : PeerProtocol P) → w.peers k ≡ some s → s.piece_index ≢ i))

  module _ (w : Swarm P) (v : Inv w) (k : ℕ) where
    others-free :
        (i : ℕ)
        → OthersOf w.peers k i
        → i ≢ minus_one
        → (count i w.piece_list.returned_pieces ≡ 0) × (i < w.piece_list.next_piece)
    unfolding OthersOf
    others-free i (inl h) n = let (a, (b, c)) = v.lost i h n in (a, b)
    others-free i (inr (j, (s, (d, (e, x))))) n =
        subst (λ i. (count i w.piece_list.returned_pieces ≡ 0) × (i < w.piece_list.next_piece)) x
          (v.working j s e (λ m. n (sym x ∙ m)))

    -- Without a piece of its own.
    pub idle-Owns : Owns (OthersOf w.peers k) minus_one w.piece_list
    idle-Owns = record {
      bounded = v.bounded;
      fresh = v.fresh;
      once = λ i n. omega (arith, v.returned i n, not_held (OthersOf w.peers k) i n);
      others = λ i o n.
          let (a, b) = others-free i o n in
          (omega (arith, a, not_held (OthersOf w.peers k) i n), b);
    }

    others-apart :
        (s : PeerProtocol P) (i : ℕ)
        → w.peers k ≡ some s
        → OthersOf w.peers k i
        → i ≢ minus_one
        → s.piece_index ≢ i
    unfolding OthersOf
    others-apart s i e (inl h) n q = (v.lost i h n).1.1 k s e q
    others-apart s i e (inr (j, (r, (d, (f, x))))) n q =
        v.apart k j s r (λ z. d (sym z)) e f (λ m. n (sym x ∙ m)) (q ∙ sym x)

    pub busy-Owns :
        (s : PeerProtocol P)
        → w.peers k ≡ some s
        → Owns (OthersOf w.peers k) s.piece_index w.piece_list
    busy-Owns s e = record {
      bounded = v.bounded;
      fresh = v.fresh;
      once = λ i n. elim (Bool-cases (s.piece_index == i)) [
        | inr t ↦ rw t (omega (arith, v.returned i n))
        | inl t ↦
            let x = (==_iff s.piece_index i).0 t in
            let (a, b) = v.working k s e (λ m. n (sym x ∙ m)) in
            let free : count i w.piece_list.returned_pieces ≡ 0 =
              subst (λ i. count i w.piece_list.returned_pieces ≡ 0) x a in
            rw (t, free) (ground (arith, b, x))
      ];
      others = λ i o n.
          let (a, b) = others-free i o n in
          (rw (ne→== s.piece_index i (others-apart s i e o n)) (omega (arith, a)), b);
    }

    -- After a call that leaves the connection so, or none.
    pub rebuild :
        (index : ℕ) (l : PieceList) (files : List (File P)) (left : Option (PeerProtocol P))
        → Owns (OthersOf w.peers k) index l
        → ((s : PeerProtocol P) → left ≡ some s → s.piece_index ≡ index)
        → Inv (record { files = files; piece_list = l; peers = update k left w.peers })
    unfolding OthersOf
    rebuild index l files left h own =
        let Other : ℕ → Type 0 = OthersOf w.peers k in
        record {
          bounded = h.bounded;
          fresh = h.fresh;
          returned = λ i n. omega (arith, h.once i n);
          working = λ j s e n. elim (update-cases k left w.peers j s e) [
            | inl (x, y) ↦
                subst (λ i. (count i l.returned_pieces ≡ 0) × (i < l.next_piece)) (sym (own s y))
                  (held-free Other index l h (λ m. n (own s y ∙ m)))
            | inr (d, f) ↦
                let (a, b) = h.others s.piece_index (inr (j, (s, (d, (f, refl))))) n in
                (omega (arith, a), b)
          ];
          apart = λ i j r s d e f n q. elim (update-cases k left w.peers i r e) [
            | inl (x, y) ↦ elim (update-cases k left w.peers j s f) [
              | inl (x', y') ↦ d (x ∙ sym x')
              | inr (d', f') ↦
                  held-apart Other index l h s.piece_index (inr (j, (s, (d', (f', refl))))) n
                    (sym (own r y) ∙ q)
            ]
            | inr (d', e') ↦ elim (update-cases k left w.peers j s f) [
              | inl (x', y') ↦
                  held-apart Other index l h r.piece_index (inr (i, (r, (d', (e', refl)))))
                    (λ m. n (sym q ∙ m)) (sym (own s y') ∙ sym q)
              | inr (d'', f') ↦ v.apart i j r s d e' f' n q
            ]
          ];
          lost = λ i o n.
              let (a, b) = h.others i (inl o) n in
              (
                omega (arith, a),
                (
                  b,
                  λ j s e q. elim (update-cases k left w.peers j s e) [
                    | inl (x, y) ↦ held-apart Other index l h i (inl o) n (sym (own s y) ∙ q)
                    | inr (d, f) ↦ (v.lost i o n).1.1 j s f q
                  ],
                ),
              );
        }
