-- ===== src/PieceList.antt =====
-- class PieceList of piece_list.hpp and piece_list.cpp: which pieces are still to be fetched. Each
-- method runs under the lock, so calls of several threads are a sequence of calls.
pub mod Handout
pub mod Sizes
use torrent_client.Base.{ℕ, List, [], ◌∷◌, ◌++◌, leb, ◌==◌, if◌then◌else◌, add64, sub64, minus_one}

pub record PieceList : Type 0 where
  pub max_piece_num : ℕ
  pub last_piece_size : ℕ
  pub piece_size : ℕ
  pub next_piece : ℕ
  pub returned_pieces : List ℕ

-- PieceList::PieceList, from tf.pieces().size(), tf.last_piece_size() and tf.piece_size()
unfoldable pub new_piece_list : ℕ → ℕ → ℕ → PieceList
new_piece_list number_of_hashes last_size size = record {
  max_piece_num = sub64 number_of_hashes 1;
  last_piece_size = last_size;
  piece_size = size;
  next_piece = 0;
  returned_pieces = [];
}

-- The size that goes with an index; the comparison is unsigned.
abbrev pub size_of : PieceList → ℕ → ℕ
size_of l piece_index = if piece_index == l.max_piece_num then l.last_piece_size else l.piece_size

-- What get_piece gives back: the size returned, the index written through the reference, the list.
pub record Given : Type 0 where
  pub size : ℕ
  pub piece_index : ℕ
  pub rest : PieceList

unfoldable pub get_piece_from : PieceList → List ℕ → Given
get_piece_from l (i ∷ is) = record {
  size = size_of l i;
  piece_index = i;
  rest = record l { returned_pieces = is };
}
get_piece_from l [] =
    if leb l.next_piece l.max_piece_num
    then record {
      size = size_of l l.next_piece;
      piece_index = l.next_piece;
      rest = record l { next_piece = add64 l.next_piece 1 };
    }
    else record { size = 0; piece_index = minus_one; rest = l }

-- PieceList::get_piece
unfoldable pub get_piece : PieceList → Given
unfolding get_piece_from
get_piece l = get_piece_from l l.returned_pieces

-- PieceList::return_piece
unfoldable pub return_piece : ℕ → PieceList → PieceList
return_piece piece l = record l { returned_pieces = l.returned_pieces ++ piece ∷ [] }

-- PieceList::number_of_pieces
unfoldable pub number_of_pieces : PieceList → ℕ
number_of_pieces l = sub64 l.max_piece_num 1
