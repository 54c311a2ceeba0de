-- ===== src/Piece.antt =====
-- class Piece of piece.hpp and piece.cpp: the bytes of one piece and the ranges of it that arrived.
pub mod Overlap
pub mod BlockSet
pub mod Cutting
pub mod Cover
pub mod Placing
pub mod Neighbours
pub mod Trimming
pub mod Adding
pub mod Storing
pub mod Receiving
pub mod Assembly
pub mod Requested
use torrent_client.Base.{
  ℕ, ◌+◌, ◌-◌, ◌≤◌, List, [], ◌∷◌, Option, none, some, Bool, true, false, ◌&&◌, ltb, leb, ◌==◌,
  if◌then◌else◌, add64, sub64, minus_one, Outcome, ok, throws, undefined, runtime_error,
  self_in_right, right_in_self,
}
use Overlap.{Block, block, modify_on_intersection, Modified, modified}
use BlockSet.{insert, inserted, erase, upper_bound, prior}

-- A heap array of bytes. The bytes of a new array are whatever the memory held.
pub record Buffer : Type 0 where
  pub capacity : ℕ
  pub byte_at : ℕ → ℕ

-- `none` is the null pointer of m_data; -1 is `minus_one`.
pub record Piece : Type 0 where
  pub buffer : Option Buffer
  pub id : ℕ
  pub full_piece_size : ℕ
  pub blocks : List Block

abbrev pub new_piece : Piece
new_piece = record { buffer = none; id = minus_one; full_piece_size = 0; blocks = [] }

-- Piece::init; `garbage` is what the new array holds.
unfoldable pub init : ℕ → ℕ → (ℕ → ℕ) → Piece → Piece
init id size garbage p = record {
  buffer = some (record { capacity = size; byte_at = garbage });
  id = id;
  full_piece_size = size;
  blocks = [];
}

-- memcpy(m_data.get() + to, source + from, n), out of bounds undefined.
unfoldable pub copy : Buffer → ℕ → (ℕ → ℕ) → ℕ → ℕ → Option Buffer
copy m to source from n =
    if leb (to + n) m.capacity
    then some (record m {
      byte_at = λ i. if leb to i && ltb i (to + n) then source (from + (i - to)) else m.byte_at i;
    })
    else none

-- The block cut back by one neighbour, where there is one.
abbrev pub trim : Option Block → Block → Modified
trim none b = modified b
trim (some x) b = modify_on_intersection b x

-- Both cuts in turn; the first error ends it.
unfoldable pub trim_both : Option Block → Option Block → Block → Modified
trim_both prev next b = elim (trim prev b) [
  | modified b' ↦ trim next b'
  | Modified.self_in_right ↦ Modified.self_in_right
  | Modified.right_in_self ↦ Modified.right_in_self
]

-- Where the block in front now meets the block behind, they become one.
unfoldable pub close : Block → Option Block → List Block → List Block
close prev none bs = bs
close prev (some next) bs =
    if add64 prev.offset prev.size == next.offset
    then erase next (insert (block prev.offset (add64 prev.size next.size)) (erase prev bs))
    else bs

-- m_blocks after `insert(b)`, and after the join with what stands behind.
abbrev pub insert_and_close : Block → Option Block → List Block → List Block
insert_and_close b next bs = close (inserted b bs) next (insert b bs)

-- The branch with a block in front.
unfoldable pub place_after : Block → Block → Option Block → List Block → List Block
unfolding close
place_after b prev next bs =
    if add64 prev.offset prev.size == b.offset
    then insert_and_close (block prev.offset (add64 prev.size b.size)) next (erase prev bs)
    else insert_and_close b next bs

-- The branch with no block in front.
unfoldable pub place_before : Block → Block → List Block → List Block
place_before b next bs =
    if add64 b.offset b.size == next.offset
    then erase next (insert (block b.offset (add64 next.size b.size)) bs)
    else insert b bs

-- The set after a block that neither neighbour overlaps. With no neighbour the code would read
-- through end(): `none`.
unfoldable pub place : Block → Option Block → Option Block → List Block → Option (List Block)
unfolding place_after place_before
place b (some prev) next bs = some (place_after b prev next bs)
place b none (some next) bs = some (place_before b next bs)
place b none none bs = none

abbrev pub settle : Piece → Option Buffer → Option (List Block) → Outcome Piece
settle p (some m) (some bs) = ok (record p { buffer = some m; blocks = bs })
settle p (some m) none = undefined
settle p none bs = undefined

-- The block after the cuts: an empty rest and SELF_IN_RIGHT leave the piece as it was.
unfoldable pub store : Piece → Buffer → (ℕ → ℕ) → Block → Modified → Outcome Piece
unfolding copy place
store p m source b Modified.self_in_right = ok p
store p m source b Modified.right_in_self = throws right_in_self p
store p m source b (modified b') =
    if b'.size == 0
    then ok p
    else settle p (copy m b'.offset source (sub64 b'.offset b.offset) b'.size)
        (place b' (prior b p.blocks) (upper_bound b p.blocks) p.blocks)

unfoldable pub add_block : Piece → Buffer → (ℕ → ℕ) → Block → List Block → Outcome Piece
unfolding store trim_both
add_block p m source b [] = settle p (copy m b.offset source 0 b.size) (some (b ∷ []))
add_block p m source b (x ∷ xs) =
    store p m source b (trim_both (prior b (x ∷ xs)) (upper_bound b (x ∷ xs)) b)

unfoldable pub add_to : Piece → Option Buffer → ℕ → (ℕ → ℕ) → ℕ → ℕ → Outcome Piece
unfolding add_block
add_to p none id source size offset =
    throws (runtime_error "uninitialized piece buffer. call init before add") p
add_to p (some m) id source size offset =
    let b = block offset size in
    if p.id == minus_one
    then add_block (record p { id = id }) m source b p.blocks
    else if p.id == id
    then add_block p m source b p.blocks
    else throws (runtime_error "invalid piece id") p

-- Piece::add; `source` is read from its first byte on.
unfoldable pub add : ℕ → (ℕ → ℕ) → ℕ → ℕ → Piece → Outcome Piece
unfolding add_to
add id source size offset p = add_to p p.buffer id source size offset

abbrev pub first_has_size : ℕ → List Block → Bool
first_has_size n [] = false
first_has_size n (b ∷ bs) = b.size == n

-- Piece::full
unfoldable pub full : Piece → Bool
full p = first_has_size p.full_piece_size p.blocks

-- Piece::get: the buffer goes to the caller, and the piece is as new.
unfoldable pub get : Piece → Option Buffer × Piece
get p = (p.buffer, record p { buffer = none; id = minus_one; full_piece_size = 0; blocks = [] })

-- Piece::clear
unfoldable pub clear : Piece → Piece
clear p = record p { blocks = []; buffer = none; id = minus_one; full_piece_size = 0 }
