-- ===== src/Piece/Cutting.antt =====
-- What Block::modify_on_intersection computes, where no end of a block wraps around.
use torrent_client.Base.{
  Option, none, some, ℕ, ◌+◌, ◌-◌, ◌≤◌, ◌<◌, ◌≡◌, ◌↔◌, Bool, ◌&&◌, ◌||◌, not, if◌then◌else◌, ltb,
  leb, arith, u64_mod,
}
use torrent_client.Piece.Overlap.{
  Block, block, modify_on_intersection, Modified, modified, self_in_right, right_in_self,
}

abbrev pub end_of : Block → ℕ
end_of b = b.offset + b.size

-- The byte at i belongs to the block.
abbrev pub in_block : ℕ → Block → Bool
in_block i b = leb b.offset i && ltb i (end_of b)

abbrev pub Fits : Block → Type 0
Fits b = end_of b < u64_mod

-- The block ends before the next one starts.
abbrev pub EndsBefore : Block → Option Block → Type 0
EndsBefore b none = Unit {0}
EndsBefore b (some next) = end_of b ≤ next.offset

module _ (self right : Block) (fits : Fits self) (fits_right : Fits right) where
  -- For two blocks whose ends do not overflow: a block that is cut keeps exactly its bytes outside
  -- the other one, and its end does not overflow.
  pub modify_on_intersection-modified :
      (b : Block) (i : ℕ)
      → modify_on_intersection self right ≡ modified b
      → Fits b × (in_block i b ≡ (in_block i self && not (in_block i right)))
  unfolding modify_on_intersection
  modify_on_intersection-modified b i h = ground arith

  -- For two blocks whose ends do not overflow: the two errors, each with the only layouts that raise
  -- it.
  pub modify_on_intersection-errors :
      ((modify_on_intersection self right ≡ self_in_right) ↔ (
        (right.offset ≤ self.offset)
        × (self.offset < end_of right)
        × (right.offset < end_of self)
        × (end_of self < end_of right)))
      × ((modify_on_intersection self right ≡ right_in_self)
          ↔ ((self.offset < right.offset) × (end_of right < end_of self)))
  unfolding modify_on_intersection
  modify_on_intersection-errors =
      ((λ h. ground arith, λ h. ground arith), (λ h. ground arith, λ h. ground arith))

  -- Cut by a block that starts no later.
  abbrev pub cut_front : Modified
  cut_front =
      if leb (end_of right) self.offset || leb (end_of self) right.offset
      then modified self
      else if ltb (end_of self) (end_of right)
      then self_in_right
      else modified (block (end_of right) (end_of self - end_of right))

  pub modify_on_intersection-cut_front :
      right.offset ≤ self.offset → modify_on_intersection self right ≡ cut_front
  unfolding modify_on_intersection
  modify_on_intersection-cut_front h = ground arith

  -- Cut by a block that starts later.
  abbrev pub cut_back : Modified
  cut_back =
      if leb (end_of self) right.offset
      then modified self
      else if ltb (end_of right) (end_of self)
      then right_in_self
      else modified (block self.offset (right.offset - self.offset))

  pub modify_on_intersection-cut_back :
      self.offset < right.offset → modify_on_intersection self right ≡ cut_back
  unfolding modify_on_intersection
  modify_on_intersection-cut_back h = ground arith
