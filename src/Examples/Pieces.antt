-- ===== src/Examples/Pieces.antt =====
-- The theorems on piece.hpp, piece.cpp, piece_list.hpp and piece_list.cpp at concrete inputs.
use torrent_client.Base.{
  ℕ, ◌+◌, ◌<◌, ◌≡◌, ◌↔◌, refl, inl, inr, List, [], ◌∷◌, some, true, ◌&&◌, not, Outcome, ok, throws,
  undefined, right_in_self, arith,
}
use torrent_client.Piece.Overlap.{Block, block, modify_on_intersection, modified, right_in_self}
use torrent_client.Piece.BlockSet.{prior, upper_bound, erase, insert}
use torrent_client.Piece.Cutting.{Fits, in_block, modify_on_intersection-modified}
use torrent_client.Piece.Cover.{covered}
use torrent_client.Piece.Receiving.{IsValid, Receives, add-Receives, add_refuses, full_iff}
use torrent_client.Piece.Assembly.{receive_all, assembled}
use torrent_client.Piece.Requested.{AreRequested, requested-assembled}
use torrent_client.Piece.{Piece, Buffer, init, new_piece, add, full, get}
use torrent_client.PieceList.{new_piece_list, get_piece, return_piece}
use torrent_client.PieceList.Handout.{Handed, Reach, take, give, here, next, start, remove}

cut_front : modify_on_intersection (block 4 6) (block 2 5) ≡ modified (block 7 3)
unfolding modify_on_intersection
cut_front = refl

cut_back : modify_on_intersection (block 0 6) (block 4 6) ≡ modified (block 0 4)
unfolding modify_on_intersection
cut_back = refl

modify_on_intersection-modified_example :
    Fits (block 7 3)
    × (in_block 8 (block 7 3) ≡ (in_block 8 (block 4 6) && not (in_block 8 (block 2 5))))
modify_on_intersection-modified_example =
    modify_on_intersection-modified (block 4 6) (block 2 5) (omega arith) (omega arith) (block 7 3)
      8 cut_front

-- A piece of ten bytes of which bytes 2, 3 and 6 have arrived.
abbrev memory : Buffer
memory = record { capacity = 10; byte_at = λ i. i }

abbrev some_piece : Piece
some_piece = record {
  buffer = some memory;
  id = 7;
  full_piece_size = 10;
  blocks = block 2 2 ∷ block 6 1 ∷ [];
}

some_piece-IsValid : IsValid some_piece memory
some_piece-IsValid = record {
  held = refl;
  sized = refl;
  bounded = omega arith;
  chain = (omega arith, omega arith, (omega arith, omega arith, tt));
  positive = (omega arith, (omega arith, tt));
}

abbrev source : ℕ → ℕ
source i = i + 100

-- Bytes 3 to 5 close the gap.
add-Receives_example : Receives some_piece memory 7 source (block 3 3) (add 7 source 3 3 some_piece)
add-Receives_example =
    add-Receives some_piece memory 7 source 3 3 some_piece-IsValid (inr refl) (omega arith)
      (omega arith)

add_refuses_example :
    add 7 source 5 4 some_piece ≡ throws right_in_self (record some_piece { id = 7 })
add_refuses_example =
    add_refuses some_piece memory 7 source 5 4 some_piece-IsValid (inr refl) (omega arith)
      (omega arith) (inr (inl (omega arith, omega arith)))

full_iff_example :
    (full some_piece ≡ true) ↔ ((i : ℕ) → i < 10 → covered i (block 2 2 ∷ block 6 1 ∷ []) ≡ true)
full_iff_example = full_iff some_piece memory some_piece-IsValid (omega arith)

-- Three overlapping ranges, the first one last.
abbrev ranges : List Block
ranges = block 2 2 ∷ block 1 2 ∷ block 0 2 ∷ []

abbrev piece_or_new : Outcome Piece → Piece
piece_or_new (ok p) = p
piece_or_new (throws e p) = p
piece_or_new undefined = new_piece

assembled_run :
    receive_all 7 source ranges (init 7 4 (λ i. 0) new_piece)
    ≡ ok (piece_or_new (receive_all 7 source ranges (init 7 4 (λ i. 0) new_piece)))
unfolding add init prior upper_bound modify_on_intersection erase insert
assembled_run = refl

assembled_run-full :
    full (piece_or_new (receive_all 7 source ranges (init 7 4 (λ i. 0) new_piece))) ≡ true
unfolding add init full prior upper_bound modify_on_intersection erase insert
assembled_run-full = refl

assembled_example :
    ((i : ℕ) → i < 4 → covered i ranges ≡ true)
    × ((m : Buffer) × ((get
            (piece_or_new (receive_all 7 source ranges (init 7 4 (λ i. 0) new_piece)))).0
          ≡ some m)
        × ((i : ℕ) → i < 4 → m.byte_at i ≡ source i))
assembled_example =
    assembled 7 4 (λ i. 0) source new_piece
      (piece_or_new (receive_all 7 source ranges (init 7 4 (λ i. 0) new_piece))) ranges
      (omega arith) (omega arith)
      (omega arith, omega arith, (omega arith, omega arith, (omega arith, omega arith, tt)))
      assembled_run assembled_run-full

-- The two requests for a piece of 20000 bytes, answered in the other order.
abbrev answers : List Block
answers = block 16384 3616 ∷ block 0 16384 ∷ []

answers-AreRequested : AreRequested 20000 answers
answers-AreRequested = ((1, omega arith, refl, refl), ((0, omega arith, refl, refl), tt))

requested-assembled_example :
    (p : Piece) × (receive_all 7 source answers (init 7 20000 (λ i. 0) new_piece) ≡ ok p)
    × (full p ≡ true)
    × ((m : Buffer) × ((get p).0 ≡ some m) × ((i : ℕ) → i < 20000 → m.byte_at i ≡ source i))
requested-assembled_example =
    requested-assembled 7 20000 (λ i. 0) source new_piece answers (omega arith) (omega arith)
      answers-AreRequested (λ i h. ground arith)

-- Two of three pieces are taken, and the first one is given back.
abbrev taken : Handed → Handed
taken h = record {
  pieces = (get_piece h.pieces).rest;
  held = (get_piece h.pieces).piece_index ∷ h.held;
}

abbrev given : ℕ → Handed → Handed
given i h = record { pieces = return_piece i h.pieces; held = remove i h.held }

abbrev two_taken : Handed
two_taken = given 0 (taken (taken (start 3 5 16)))

Reach-two_taken : Reach (start 3 5 16) two_taken
unfolding get_piece return_piece new_piece_list
Reach-two_taken =
    next
      (next (next here (take (start 3 5 16) (λ e. omega arith)))
        (take (taken (start 3 5 16)) (λ e. omega arith)))
      (give (taken (taken (start 3 5 16))) 0 (omega arith))
