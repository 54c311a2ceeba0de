-- ===== src/PieceList/Sizes.antt =====
-- Which size get_piece gives with an index, and how many pieces the list says that it has.
use torrent_client.Base.{
  ℕ, ◌+◌, ◌-◌, ◌*◌, ◌/◌, ◌%◌, ◌≤◌, ◌<◌, ◌≡◌, ◌↔◌, ap, arith, leb, ◌==◌, ◌&&◌, if◌then◌else◌,
  u64_mod, ◌≢◌, refl, subst, ◌∙◌, List, [], ◌∷◌, Bytes, length, ok, Bool-cases, inl, inr,
}
use torrent_client.TorrentFile.{FileInfo, TorrentFile, check_pieces, fill_from, fill_piece_offsets}
use torrent_client.PieceList.{new_piece_list, number_of_pieces, size_of}

ok_injective : {A : Type 0} {a b : A} → ok a ≡ ok b → a ≡ b
ok_injective e = cc

-- The bytes of piece i of a torrent of `full` bytes in pieces of `size` bytes.
abbrev pub bytes_of_piece : ℕ → ℕ → ℕ → ℕ
bytes_of_piece full size i = if leb ((i + 1) * size) full then size else full - i * size

-- A torrent of n pieces, its last one at least one byte long.
abbrev pub HasPieces : ℕ → ℕ → ℕ → Type 0
HasPieces full size n = (0 < size) × ((n - 1) * size < full) × (full ≤ n * size) × (0 < n)

pub last_rest :
    (i size full : ℕ)
    → i * size < full
    → full ≤ (i + 1) * size
    → full % size ≡ (if full == (i + 1) * size then 0 else full - i * size)
last_rest i size full l h = grind arith

last_index : (n : ℕ) → 0 < n → n - 1 + 1 ≡ n
last_index n h = omega arith

index_of : (i n : ℕ) → i + 1 ≡ n → i ≡ n - 1
index_of i n e = omega arith

mul_mono : (a b c : ℕ) → a ≤ b → a * c ≤ b * c
mul_mono a b c h = grind arith

-- With the last size full % size.
size_of_with_rest :
    (full size n i : ℕ)
    → HasPieces full size n
    → n < u64_mod
    → i < n
    → size_of (new_piece_list n (full % size) size) i
      ≡ (if (full % size == 0) && (i + 1 == n) then 0 else bytes_of_piece full size i)
unfolding new_piece_list
size_of_with_rest full size n i h f l = ground (
  arith,
  mul_mono (i + 1) (n - 1) size,
  last_rest (n - 1) size full,
  ap (λ k. k * size) (last_index n h.3),
  index_of i n,
  last_index n h.3,
)

check_pieces-rest :
    (hashes : List Bytes) (t t' : TorrentFile)
    → check_pieces hashes t ≡ ok t'
    → t'.last_piece_size ≡ t'.full_size % t'.piece_size
check_pieces-rest [] t t' e = cc
check_pieces-rest (p ∷ ps) t t' e = elim (Bool-cases (t.piece_size == 0)) [
  | inl z ↦ let impossible = rw z at e in cc
  | inr z ↦
      let same : record t { last_piece_size = t.full_size % t.piece_size } ≡ t' =
        ok_injective (rw z at e) in
      subst (λ u. u.last_piece_size ≡ u.full_size % u.piece_size) same refl
]

fill_from-rest :
    (fs : List FileInfo) (t t' : TorrentFile)
    → fill_from t fs ≡ ok t'
    → t'.last_piece_size ≡ t'.full_size % t'.piece_size
fill_from-rest [] t t' e = check_pieces-rest t.pieces t t' e
fill_from-rest (f ∷ fs) t t' e = elim (Bool-cases (t.piece_size == 0)) [
  | inl z ↦ let impossible = rw z at e in cc
  | inr z ↦ check_pieces-rest t.pieces _ t' (rw z at e)
]

-- After fill_piece_offsets, for a torrent with a hash for each of its pieces, which are fewer than
-- 2^64: in the list of its pieces every piece has its own number of bytes, but for the last one when
-- the piece size divides the full size, which gets 0.
pub size_of-bytes_of_piece :
    (t t' : TorrentFile) (i : ℕ)
    → fill_piece_offsets t ≡ ok t'
    → HasPieces t'.full_size t'.piece_size (length t'.pieces)
    → length t'.pieces < u64_mod
    → i < length t'.pieces
    → size_of (new_piece_list (length t'.pieces) t'.last_piece_size t'.piece_size) i ≡ (
        if (t'.full_size % t'.piece_size == 0) && (i + 1 == length t'.pieces)
        then 0
        else bytes_of_piece t'.full_size t'.piece_size i)
unfolding fill_piece_offsets
size_of-bytes_of_piece t t' i e h f l =
    ap (λ last. size_of (new_piece_list (length t'.pieces) last t'.piece_size) i)
      (fill_from-rest t.files t t' e)
    ∙ size_of_with_rest t'.full_size t'.piece_size (length t'.pieces) i h f l

-- For two pieces or more.
pub bitfield_reaches_iff :
    (n last size : ℕ)
    → 2 ≤ n
    → n < u64_mod
    → (n ≤ (number_of_pieces (new_piece_list n last size) / 8 + 1) * 8) ↔ (n % 8 ≢ 1)
unfolding number_of_pieces new_piece_list
bitfield_reaches_iff n last size h f = (λ l e. omega arith, λ e. ground arith)
