-- ===== src/Swarm/Owning.antt =====
-- The list of pieces (piece_list.hpp) as one connection sees it, whose own piece is apart from those
-- of all others.
use torrent_client.Base.{
  ℕ, ◌+◌, ◌≤◌, ◌<◌, ◌≡◌, ◌≢◌, refl, ap, inl, inr, List, [], ◌∷◌, Bool-cases, ltb, leb, leb→le,
  add64, ◌==◌, if◌then◌else◌, minus_one, arith,
}
use torrent_client.PieceList.{PieceList, Given, get_piece, get_piece_from, return_piece}
use torrent_client.PieceList.Handout.{count, count-append}

abbrev pub holds : ℕ → ℕ → ℕ
holds index i = if index == i then 1 else 0

-- A list of pieces with the index of one connection. Each piece that was handed out is in the list of
-- returned pieces at most once, and not there while the connection works on it. The pieces of others
-- were handed out, and are neither. The -1 is no piece.
pub record Owns (Others : ℕ → Type 0) (index : ℕ) (l : PieceList) : Type 0 where
  pub bounded : l.max_piece_num < minus_one
  pub fresh : l.next_piece ≤ l.max_piece_num + 1
  pub once :
      (i : ℕ)
      → i ≢ minus_one
      → count i l.returned_pieces + holds index i ≤ (if ltb i l.next_piece then 1 else 0)
  pub others :
      (i : ℕ)
      → Others i
      → i ≢ minus_one
      → (count i l.returned_pieces + holds index i ≡ 0) × (i < l.next_piece)

module _ (Others : ℕ → Type 0) where
  pub not_held : (i : ℕ) → i ≢ minus_one → holds minus_one i ≡ 0
  not_held i n = ground arith

  pub loses : (i : ℕ) (l : PieceList) → Owns Others i l → Owns Others minus_one l
  loses i l h = record {
    bounded = h.bounded;
    fresh = h.fresh;
    once = λ j n. omega (arith, h.once j n, not_held j n);
    others = λ j o n. omega (arith, h.others j o n, not_held j n);
  }

  pub gives : (i : ℕ) (l : PieceList) → Owns Others i l → Owns Others minus_one (return_piece i l)
  unfolding return_piece
  gives i l h = record {
    bounded = h.bounded;
    fresh = h.fresh;
    once =
        λ j n. omega (arith, h.once j n, not_held j n, count-append j l.returned_pieces (i ∷ []));
    others = λ j o n.
        omega (arith, h.others j o n, not_held j n, count-append j l.returned_pieces (i ∷ []));
  }

  OwnsGiven : Given → Type 0
  OwnsGiven g = Owns Others g.piece_index g.rest

  takes_from :
      (i : ℕ) (l : PieceList) (returned : List ℕ)
      → l.returned_pieces ≡ returned
      → Owns Others i l
      → OwnsGiven (get_piece_from l returned)
  unfolding get_piece_from OwnsGiven
  takes_from i l (x ∷ xs) e h = record {
    bounded = h.bounded;
    fresh = h.fresh;
    once = λ j n. omega (arith, h.once j n, ap (count j) e);
    others = λ j o n. omega (arith, h.others j o n, ap (count j) e);
  }
  takes_from i l [] e h = elim (Bool-cases (leb l.next_piece l.max_piece_num)) [
    | inl t ↦
        let below = leb→le _ _ t in
        let next : add64 l.next_piece 1 ≡ l.next_piece + 1 = omega (arith, h.bounded) in
        rw (t, next)
          (record {
            bounded = h.bounded;
            fresh = omega (arith, below);
            once = λ j n. ground (arith, h.once j n);
            others = λ j o n. ground (arith, h.others j o n);
          })
    | inr t ↦ rw t (loses i l h)
  ]

  pub takes :
      (i : ℕ) (l : PieceList)
      → Owns Others i l
      → Owns Others (get_piece l).piece_index (get_piece l).rest
  unfolding get_piece OwnsGiven
  takes i l h = takes_from i l l.returned_pieces refl h

module _ (Others : ℕ → Type 0) (index : ℕ) (l : PieceList) (h : Owns Others index l) where
  pub held-free : index ≢ minus_one → (count index l.returned_pieces ≡ 0) × (index < l.next_piece)
  held-free n = let once = h.once index n in ground arith

  pub held-apart : (i : ℕ) → Others i → i ≢ minus_one → index ≢ i
  held-apart i o n x = let (a, b) = h.others i o n in ground arith
