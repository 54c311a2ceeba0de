-- ===== src/Piece/BlockSet.antt =====
-- std::set<Block> as piece.cpp uses it: a list in the order of the offsets, no offset twice. An
-- iterator is the block that it stands at, and `none` is end().
use torrent_client.Base.{List, [], ◌∷◌, Option, none, some, if◌then◌else◌}
use torrent_client.Piece.Overlap.{Block, precedes}

-- m_blocks.insert(b): nothing changes where a block of that offset is there.
unfoldable pub insert : Block → List Block → List Block
insert b [] = b ∷ []
insert b (x ∷ xs) =
    if precedes b x then b ∷ x ∷ xs else if precedes x b then x ∷ insert b xs else x ∷ xs

-- *m_blocks.insert(b).first: the new block, or the one that was there.
unfoldable pub inserted : Block → List Block → Block
inserted b [] = b
inserted b (x ∷ xs) = if precedes b x then b else if precedes x b then inserted b xs else x

-- m_blocks.erase of the iterator that stands at b.
unfoldable pub erase : Block → List Block → List Block
erase b [] = []
erase b (x ∷ xs) = if precedes x b then x ∷ erase b xs else if precedes b x then x ∷ xs else xs

-- m_blocks.upper_bound(b): the first block behind b.
unfoldable pub upper_bound : Block → List Block → Option Block
upper_bound b [] = none
upper_bound b (x ∷ xs) = if precedes b x then some x else upper_bound b xs

abbrev pub or_else : Option Block → Block → Block
or_else none x = x
or_else (some y) x = y

-- The block in front of upper_bound(b); end() where that is begin().
unfoldable pub prior : Block → List Block → Option Block
prior b [] = none
prior b (x ∷ xs) = if precedes b x then none else some (or_else (prior b xs) x)
