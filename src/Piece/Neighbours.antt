-- ===== src/Piece/Neighbours.antt =====
-- What the two searches of Piece::add find in an ordered set, and which bytes the two blocks cover.
use torrent_client.Base.{
  ℕ, suc, ◌≤◌, ◌<◌, ◌≡◌, refl, List, [], ◌∷◌, Option, none, some, ◌||◌, arith, u64_mod,
}
use torrent_client.Piece.Overlap.{Block}
use torrent_client.Piece.BlockSet.{upper_bound, prior}
use torrent_client.Piece.Cutting.{end_of}
use torrent_client.Piece.Cover.{covered, Chain, covered_below}
use torrent_client.Piece.Trimming.{in_option, StartsBy, StartsAfter}

-- A block found in a part of the set from `lo` to `top`.
abbrev pub Found : ℕ → ℕ → Option Block → Type 0
Found lo top none = Unit {0}
Found lo top (some x) = (lo ≤ x.offset) × (end_of x ≤ top)

abbrev IsFront : Block → Option Block → Type 0
IsFront b none = Unit {0}
IsFront b (some x) = x.offset ≤ b.offset

abbrev IsBehind : Block → Option Block → Type 0
IsBehind b none = Unit {0}
IsBehind b (some x) = b.offset < x.offset

module _ (b : Block) where
  prior-Found : (lo top : ℕ) (bs : List Block) → Chain lo top bs → Found lo top (prior b bs)
  unfolding prior
  prior-Found lo top [] c = tt
  prior-Found lo top (x ∷ xs) c = ground (arith, prior-Found (suc (end_of x)) top xs c.2)

  prior-IsFront : (bs : List Block) → IsFront b (prior b bs)
  unfolding prior
  prior-IsFront [] = tt
  prior-IsFront (x ∷ xs) = ground (arith, prior-IsFront xs)

  pub upper_bound-Found :
      (lo top : ℕ) (bs : List Block) → Chain lo top bs → Found lo top (upper_bound b bs)
  unfolding upper_bound
  upper_bound-Found lo top [] c = tt
  upper_bound-Found lo top (x ∷ xs) c =
      ground (arith, upper_bound-Found (suc (end_of x)) top xs c.2)

  upper_bound-IsBehind : (bs : List Block) → IsBehind b (upper_bound b bs)
  unfolding upper_bound
  upper_bound-IsBehind [] = tt
  upper_bound-IsBehind (x ∷ xs) = ground (arith, upper_bound-IsBehind xs)

  module _ (top : ℕ) (fits : top < u64_mod) where
    pub prior-StartsBy : (lo : ℕ) (bs : List Block) → Chain lo top bs → StartsBy b (prior b bs)
    prior-StartsBy lo bs c = ground (arith, prior-Found lo top bs c, prior-IsFront bs)

    pub upper_bound-StartsAfter :
        (lo : ℕ) (bs : List Block) → Chain lo top bs → StartsAfter b (prior b bs) (upper_bound b bs)
    unfolding prior upper_bound
    upper_bound-StartsAfter lo [] c = tt
    upper_bound-StartsAfter lo (x ∷ xs) c = ground (
      arith,
      upper_bound-StartsAfter (suc (end_of x)) xs c.2,
      upper_bound-Found (suc (end_of x)) top xs c.2,
    )

-- A byte no further than the end of the block behind.
abbrev pub UpTo : ℕ → Option Block → Type 0
UpTo i none = Unit {0}
UpTo i (some y) = i ≤ end_of y

-- From the start of `b` on, the two neighbours cover what the set covers.
pub covered-neighbours :
    (b : Block) (i lo top : ℕ) (bs : List Block)
    → Chain lo top bs
    → b.offset ≤ i
    → UpTo i (upper_bound b bs)
    → covered i bs ≡ (in_option i (prior b bs) || in_option i (upper_bound b bs))
unfolding prior upper_bound
covered-neighbours b i lo top [] c h u = refl
covered-neighbours b i lo top (x ∷ xs) c h u = ground (
  arith,
  covered-neighbours b i (suc (end_of x)) top xs c.2 h,
  covered_below (suc (end_of x)) top i xs c.2,
  prior-Found b (suc (end_of x)) top xs c.2,
  prior-IsFront b xs,
)
