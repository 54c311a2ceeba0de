-- ===== src/Piece/Cover.antt =====
-- Which bytes a set of blocks covers, and what every reachable set satisfies.
use torrent_client.Base.{ℕ, suc, ◌≤◌, ◌<◌, ◌≡◌, refl, List, [], ◌∷◌, Bool, false, ◌||◌, arith}
use torrent_client.Piece.Overlap.{Block}
use torrent_client.Piece.Cutting.{end_of, in_block}

abbrev pub covered : ℕ → List Block → Bool
covered i [] = false
covered i (b ∷ bs) = in_block i b || covered i bs

-- The blocks stand in order from `lo` to `cap`, and a byte that has not arrived lies between any
-- two of them.
abbrev pub Chain : ℕ → ℕ → List Block → Type 0
Chain lo cap [] = Unit {0}
Chain lo cap (b ∷ bs) = (lo ≤ b.offset) × (end_of b ≤ cap) × Chain (suc (end_of b)) cap bs

-- No block is empty.
abbrev pub IsPositive : List Block → Type 0
IsPositive [] = Unit {0}
IsPositive (b ∷ bs) = (0 < b.size) × IsPositive bs

pub Chain-mono : (lo lo' cap : ℕ) (bs : List Block) → lo' ≤ lo → Chain lo cap bs → Chain lo' cap bs
Chain-mono lo lo' cap [] h c = tt
Chain-mono lo lo' cap (b ∷ bs) h c = (omega arith, c.1, c.2)

-- Nothing below the lower end is covered.
pub covered_below :
    (lo cap i : ℕ) (bs : List Block) → Chain lo cap bs → i < lo → covered i bs ≡ false
covered_below lo cap i [] c h = refl
covered_below lo cap i (b ∷ bs) c h = ground (arith, covered_below (suc (end_of b)) cap i bs c.2)
