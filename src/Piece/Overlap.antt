-- ===== src/Piece/Overlap.antt =====
-- struct Block of piece.hpp and piece.cpp: a range of received bytes.
use torrent_client.Base.{ℕ, Bool, ◌||◌, ltb, leb, if◌then◌else◌, add64, sub64}

pub record Block : Type 0 where
  pub offset : ℕ
  pub size : ℕ

-- Block::Block
abbrev pub block : ℕ → ℕ → Block
block offset size = record { offset = offset; size = size }

-- What modify_on_intersection does to the block: change it, or throw one of the two errors.
pub data Modified : Type 0 where
  modified : Block → Modified
  self_in_right right_in_self : Modified

-- operator <
abbrev pub precedes : Block → Block → Bool
precedes self right = ltb self.offset right.offset

unfoldable pub modify_on_intersection : Block → Block → Modified
modify_on_intersection self right =
    let self_end = add64 self.offset self.size in
    let right_end = add64 right.offset right.size in
    if leb self_end right.offset || leb right_end self.offset
    then modified self
    else if ltb self.offset right.offset
    then if ltb right_end self_end
      then right_in_self
      else modified (record self { size = sub64 self.size (sub64 self_end right.offset) })
    else if ltb self_end right_end
    then self_in_right
    else modified (record {
      offset = add64 self.offset (sub64 right_end self.offset);
      size = sub64 self.size (sub64 right_end self.offset);
    })
