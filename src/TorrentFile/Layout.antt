-- ===== src/TorrentFile/Layout.antt =====
-- The places that fill_piece_offsets gives to the files fit together, and leave no piece without a
-- file.
use torrent_client.Base.{
  ℕ, ◌+◌, ◌-◌, ◌*◌, ◌/◌, ◌%◌, ◌≤◌, ◌<◌, ◌≡◌, ◌≢◌, refl, ap, inl, inr, List, [], ◌∷◌, Bool-cases,
  ltb, ltb→lt, ltb→ge, ◌==◌, ==_iff, if◌then◌else◌, arith, sub64, u64_mod,
}
use native.Mathlib.Nat.{div-add-mod', mod-lt, le-div_iff_mul-le, div-mul-le_self, div-le_of_le-mul}
use torrent_client.TorrentFile.{FileInfo}
use torrent_client.TorrentFile.Offsets.{located, located_all, total}
use torrent_client.PieceList.{size_of, new_piece_list}
use torrent_client.PieceList.Sizes.{HasPieces, last_rest}
use torrent_client.Files.Layout.{IsLaid, AreLaid, HasPiece}

-- Each file has some bytes.
abbrev pub NoneEmpty : List FileInfo → Type 0
NoneEmpty [] = Unit {0}
NoneEmpty (f ∷ fs) = (0 < f.size) × NoneEmpty fs

index_up : (n : ℕ) → 0 < n → n - 1 + 1 ≡ n
index_up n h = omega arith

last_rest_ne :
    (i size full : ℕ)
    → i * size < full
    → full ≤ (i + 1) * size
    → full % size ≢ 0
    → full % size ≡ full - i * size
last_rest_ne i size full l h e = ground (arith, last_rest i size full l h)

-- The size that the list of pieces has for an index.
abbrev pub size_at : ℕ → ℕ → ℕ → ℕ → ℕ
size_at full size n = size_of (new_piece_list n (full % size) size)

module _ (full size n : ℕ) (has : HasPieces full size n) (fits : n < u64_mod) where
  pub size_at-lem : (i : ℕ) → size_at full size n i ≡ (if i == n - 1 then full % size else size)
  unfolding new_piece_list
  size_at-lem i = let same : sub64 n 1 ≡ n - 1 = omega (arith, has.3) in rw same refl

  rest_of_last : full % size ≢ 0 → full % size ≡ full - (n - 1) * size
  rest_of_last e =
      let up : full ≤ (n - 1 + 1) * size = rw (index_up n has.3) has.2 in
      last_rest_ne (n - 1) size full has.1 up e

  -- Byte `at` lies in its piece, also in the last one.
  rest_within : (at : ℕ) → at < full → full % size ≢ 0 → at % size < size_at full size n (at / size)
  rest_within at l e = rw (size_at-lem (at / size)) (elim (Bool-cases (at / size == n - 1)) [
    | inr t ↦ rw t (mod-lt at has.0)
    | inl t ↦
        let same = ap (λ (k : ℕ). k * size) ((==_iff (at / size) (n - 1)).0 t) in
        rw t (omega (arith, rest_of_last e, div-add-mod' at size, same))
  ])

  div_mono : (a b : ℕ) → a ≤ b → a / size ≤ b / size
  div_mono a b l = (le-div_iff_mul-le has.0).1 (omega (arith, div-mul-le_self a size))

  module _ (within : full % size ≢ 0) where
    located-IsLaid :
        (start : ℕ) (f : FileInfo)
        → 0 < f.size
        → start + f.size ≤ full
        → IsLaid (size_at full size n) (located size start (start + f.size) f)
    located-IsLaid start f z l = (
      omega (arith, rest_within start (omega arith) within),
      omega (arith, rest_within (start + f.size - 1) (omega arith) within),
      λ e. omega (
        arith,
        div-add-mod' start size,
        div-add-mod' (start + f.size - 1) size,
        ap (λ (k : ℕ). k * size) e,
      ),
    )

    pub located_all-AreLaid :
        (low start : ℕ) (fs : List FileInfo)
        → low ≤ start / size
        → NoneEmpty fs
        → start + total fs ≤ full
        → AreLaid (size_at full size n) low (located_all size start fs)
    located_all-AreLaid low start [] h z l = tt
    located_all-AreLaid low start (f ∷ fs) h z l = (
      h,
      div_mono start (start + f.size - 1) (omega (arith, z.0)),
      located-IsLaid start f z.0 (omega arith),
      located_all-AreLaid ((start + f.size - 1) / size) (start + f.size) fs
          (div_mono (start + f.size - 1) (start + f.size) (omega arith)) z.1 (omega arith),
    )

  pub located_all-HasPiece :
      (id start : ℕ) (fs : List FileInfo)
      → start ≤ id * size
      → id * size < start + total fs
      → HasPiece id (located_all size start fs)
  located_all-HasPiece id start [] h l = absurd (omega arith)
  located_all-HasPiece id start (f ∷ fs) h l =
      elim (Bool-cases (ltb (id * size) (start + f.size))) [
        | inl t ↦ inl (
          div-le_of_le-mul size (omega arith),
          (le-div_iff_mul-le has.0).1 (omega (arith, ltb→lt _ _ t)),
        )
        | inr t ↦ inr (located_all-HasPiece id (start + f.size) fs (ltb→ge _ _ t) (omega arith))
      ]
