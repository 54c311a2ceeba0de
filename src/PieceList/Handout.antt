-- ===== src/PieceList/Handout.antt =====
-- Who works on which piece: clients take pieces and give back pieces that they hold.
use torrent_client.Base.{
  ℕ, ◌+◌, ◌≤◌, ◌<◌, ◌≡◌, ◌≢◌, ◌↔◌, refl, ap, List, [], ◌∷◌, ◌++◌, arith, ltb, ◌==◌, if◌then◌else◌,
  minus_one, u64_mod,
}
use torrent_client.PieceList.{PieceList, get_piece, get_piece_from, return_piece, new_piece_list}

abbrev pub count : ℕ → List ℕ → ℕ
count i [] = 0
count i (x ∷ xs) = (if x == i then 1 else 0) + count i xs

abbrev pub remove : ℕ → List ℕ → List ℕ
remove i [] = []
remove i (x ∷ xs) = if x == i then xs else x ∷ remove i xs

pub count-append : (i : ℕ) (xs ys : List ℕ) → count i (xs ++ ys) ≡ count i xs + count i ys
count-append i [] ys = omega arith
count-append i (x ∷ xs) ys = omega (arith, count-append i xs ys)

count-remove :
    (i j : ℕ) (xs : List ℕ)
    → 0 < count j xs
    → count i (remove j xs) + (if j == i then 1 else 0) ≡ count i xs
count-remove i j [] h = absurd (omega arith)
count-remove i j (x ∷ xs) h = ground (arith, count-remove i j xs)

-- The list, and the pieces that clients hold or have completed.
pub record Handed : Type 0 where
  pub pieces : PieceList
  pub held : List ℕ

-- One call by some client: a piece that was there is taken, or a held one is given back.
pub data Step : Handed → Handed → Type 0 where
  take :
      (h : Handed)
      → (get_piece h.pieces).piece_index ≢ minus_one
      → Step h (record {
        pieces = (get_piece h.pieces).rest;
        held = (get_piece h.pieces).piece_index ∷ h.held;
      })
  give :
      (h : Handed) (i : ℕ)
      → 0 < count i h.held
      → Step h (record { pieces = return_piece i h.pieces; held = remove i h.held })

pub data Reach (h : Handed) : Handed → Type 0 where
  here : Reach h h
  next : {h' h'' : Handed} → Reach h h' → Step h' h'' → Reach h h''

-- Each index below the next fresh one is held or returned, once; no other is either.
pub record Inv (n : ℕ) (h : Handed) : Type 0 where
  pub fixed : h.pieces.max_piece_num + 1 ≡ n
  pub below : h.pieces.next_piece ≤ n
  pub once :
      (i : ℕ)
      → count i h.held + count i h.pieces.returned_pieces
        ≡ (if ltb i h.pieces.next_piece then 1 else 0)

start-Inv :
    (n last size : ℕ)
    → 0 < n
    → n < u64_mod
    → Inv n (record { pieces = new_piece_list n last size; held = [] })
unfolding new_piece_list
start-Inv n last size z f = record {
  fixed = omega arith;
  below = omega arith;
  once = λ i. ground arith;
}

take-Inv :
    (n : ℕ) (p : PieceList) (held returned : List ℕ)
    → n < u64_mod
    → p.returned_pieces ≡ returned
    → Inv n (record { pieces = p; held = held })
    → (get_piece_from p returned).piece_index ≢ minus_one
    → Inv n (record {
      pieces = (get_piece_from p returned).rest;
      held = (get_piece_from p returned).piece_index ∷ held;
    })
unfolding get_piece_from
take-Inv n p held [] f e v h = record {
  fixed = ground arith;
  below = ground arith;
  once = λ i. ground (arith, v.once i, ap (count i) e);
}
take-Inv n p held (x ∷ xs) f e v h = record {
  fixed = v.fixed;
  below = v.below;
  once = λ i. ground (arith, v.once i, ap (count i) e);
}

Step-Inv : (n : ℕ) → n < u64_mod → {h h' : Handed} → Step h h' → Inv n h → Inv n h'
unfolding get_piece return_piece
Step-Inv n f (take h t) v = take-Inv n h.pieces h.held h.pieces.returned_pieces f refl v t
Step-Inv n f (give h i t) v = record {
  fixed = v.fixed;
  below = v.below;
  once = λ j. ground (
    arith,
    v.once j,
    count-remove j i h.held t,
    count-append j h.pieces.returned_pieces (i ∷ []),
  );
}

Reach-Inv : (n : ℕ) → n < u64_mod → {h h' : Handed} → Inv n h → Reach h h' → Inv n h'
Reach-Inv n f v here = v
Reach-Inv n f v (next r s) = Step-Inv n f s (Reach-Inv n f v r)

abbrev pub start : ℕ → ℕ → ℕ → Handed
start n last size = record { pieces = new_piece_list n last size; held = [] }

-- As long as clients give back only pieces that they hold, every piece of the torrent that was
-- handed out is with exactly one client or in the list of returned pieces, exactly once, and no
-- other index is: two clients never work on one piece, and none is lost.
pub Reach-exclusive :
    (n last size : ℕ) (h : Handed)
    → 0 < n
    → n < u64_mod
    → Reach (start n last size) h
    → (i : ℕ)
    → (count i h.held + count i h.pieces.returned_pieces
        ≡ (if ltb i h.pieces.next_piece then 1 else 0))
      × (h.pieces.next_piece ≤ n)
Reach-exclusive n last size h z f r i =
    let v = Reach-Inv n f (start-Inv n last size z f) r in (v.once i, v.below)

exhausted :
    (n : ℕ) (p : PieceList) (held returned : List ℕ)
    → n < u64_mod
    → p.returned_pieces ≡ returned
    → Inv n (record { pieces = p; held = held })
    → ((get_piece_from p returned).piece_index ≡ minus_one) ↔ ((i : ℕ) → i < n → count i held ≡ 1)
unfolding get_piece_from
exhausted n p held [] f e v = (
  λ t i l. ground (arith, v.once i, ap (count i) e),
  λ all. ground (arith, v.once p.next_piece, ap (count p.next_piece) e, all p.next_piece),
)
exhausted n p held (x ∷ xs) f e v = (
  λ t i l. ground (arith, v.once x, ap (count x) e),
  λ all. ground (arith, v.once x, ap (count x) e, all x),
)

-- As long as clients give back only pieces that they hold, get_piece answers -1 exactly when every
-- piece of the torrent is with a client.
pub Reach-exhausted :
    (n last size : ℕ) (h : Handed)
    → 0 < n
    → n < u64_mod
    → Reach (start n last size) h
    → ((get_piece h.pieces).piece_index ≡ minus_one) ↔ ((i : ℕ) → i < n → count i h.held ≡ 1)
unfolding get_piece
Reach-exhausted n last size h z f r =
    exhausted n h.pieces h.held h.pieces.returned_pieces f refl
      (Reach-Inv n f (start-Inv n last size z f) r)
