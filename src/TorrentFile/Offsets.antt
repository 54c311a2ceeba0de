-- ===== src/TorrentFile/Offsets.antt =====
-- Where TorrentFile::fill_piece_offsets puts the files in the sequence of pieces.
use torrent_client.Base.{
  ℕ, ◌+◌, ◌-◌, ◌/◌, ◌%◌, ◌<◌, ◌≡◌, ◌≢◌, refl, sym, ap, ◌∙◌, List, [], ◌∷◌, ok, arith, u64_mod,
}
use native.Mathlib.Nat.{
  zero-add, zero-div, zero-mod, add-zero, add_assoc, mod-add-mod, mul-add-div, div-add-mod, mod-lt,
  div-le_self,
}
use torrent_client.TorrentFile.{
  FileInfo, OffsetInPiece, Cursor, TorrentFile, place_file, place_files, fill_piece_offsets,
  check_pieces, fill_from, Bytes,
}

-- Byte `at` of the torrent, as a piece and the offset in it.
abbrev pub piece_of : ℕ → ℕ → OffsetInPiece
piece_of size at = record { index = at / size; offset = at % size }

-- A file from byte `start` up to byte `end`: the piece and the offset of its first byte, and of its
-- last byte the piece and the offset behind it.
abbrev pub located : ℕ → ℕ → ℕ → FileInfo → FileInfo
located size start end f = record f {
  first_piece = piece_of size start;
  last_piece = record { index = (end - 1) / size; offset = (end - 1) % size + 1 };
}

-- The files one behind the other.
abbrev pub located_all : ℕ → ℕ → List FileInfo → List FileInfo
located_all size start [] = []
located_all size start (f ∷ fs) =
    located size start (start + f.size) f ∷ located_all size (start + f.size) fs

abbrev pub total : List FileInfo → ℕ
total [] = 0
total (f ∷ fs) = f.size + total fs

-- No file ends where a piece ends.
abbrev pub EndsWithin : ℕ → ℕ → List FileInfo → Type 0
EndsWithin size start [] = Unit {0}
EndsWithin size start (f ∷ fs) = ((start + f.size) % size ≢ 0) × EndsWithin size (start + f.size) fs

abbrev cursor_at : ℕ → ℕ → ℕ → Cursor
cursor_at size at full = record { index = at / size; offset = at % size; full_size = full }

div_split :
    (size start n : ℕ) → 0 < size → start / size + (start % size + n) / size ≡ (start + n) / size
div_split size start n z =
    sym (mul-add-div z (start / size) (start % size + n))
    ∙ ap (λ k. k / size) (omega (arith, div-add-mod start size))

mod_split : (size start n : ℕ) → (start % size + n) % size ≡ (start + n) % size
mod_split size start n = mod-add-mod start size n

last_within :
    (size at : ℕ)
    → 0 < size
    → at % size ≢ 0
    → ((at - 1) / size ≡ at / size) × ((at - 1) % size + 1 ≡ at % size)
last_within size at z h = grind arith

last_boundary :
    (size at : ℕ)
    → 0 < size
    → at % size ≡ 0
    → 0 < at
    → ((at - 1) / size + 1 ≡ at / size) × ((at - 1) % size + 1 ≡ size)
last_boundary size at z h = grind arith

module _ (size start full : ℕ) (f : FileInfo) (z : 0 < size)
    (fits : start + f.size + size < u64_mod) (fits_full : full + f.size < u64_mod) where
  sum_fits : start % size + f.size < u64_mod
  sum_fits = omega (arith, mod-lt start z)

  index_fits : (start + f.size) / size < u64_mod - 1
  index_fits = omega (arith, div-le_self (start + f.size) size)

  place_file-within :
      (start + f.size) % size ≢ 0
      → place_file size (cursor_at size start full) f
        ≡ (located size start (start + f.size) f, cursor_at size (start + f.size) (full + f.size))
  unfolding place_file
  place_file-within h = ground (
    arith,
    sum_fits,
    index_fits,
    div_split size start f.size z,
    mod_split size start f.size,
    last_within size (start + f.size) z h,
  )

  -- At the end of a piece the index is counted twice.
  place_file-boundary :
      0 < start + f.size
      → (start + f.size) % size ≡ 0
      → place_file size (cursor_at size start full) f ≡ (
        record f {
          first_piece = piece_of size start;
          last_piece = record { index = (start + f.size - 1) / size + 1; offset = size };
        },
        record { index = (start + f.size) / size + 1; offset = 0; full_size = full + f.size },
      )
  unfolding place_file
  place_file-boundary p h = ground (
    arith,
    sum_fits,
    index_fits,
    div_split size start f.size z,
    mod_split size start f.size,
    last_boundary size (start + f.size) z h,
  )

place_files-within :
    (size start full : ℕ) (fs : List FileInfo)
    → 0 < size
    → start + total fs + size < u64_mod
    → full + total fs < u64_mod
    → EndsWithin size start fs
    → place_files size (cursor_at size start full) fs
      ≡ (located_all size start fs, cursor_at size (start + total fs) (full + total fs))
unfolding place_files
place_files-within size start full [] z l m h = rw (add-zero start, add-zero full)
place_files-within size start full (f ∷ fs) z l m h = rw (
  place_file-within size start full f z (omega arith) (omega arith) h.0,
  place_files-within size (start + f.size) (full + f.size) fs z (omega arith) (omega arith) h.1,
  add_assoc start f.size (total fs),
  add_assoc full f.size (total fs),
)

check_some :
    (hashes : List Bytes) (t : TorrentFile)
    → hashes ≢ []
    → 0 < t.piece_size
    → check_pieces hashes t ≡ ok (record t { last_piece_size = t.full_size % t.piece_size })
check_some [] t h z = absurd (h refl)
check_some (p ∷ ps) t h z = ground arith

start_cursor :
    (size full : ℕ)
    → ◌≡◌ {A = Cursor} (record { index = 0; offset = 0; full_size = full }) (cursor_at size 0 full)
start_cursor size full = rw (zero-div size, zero-mod size)

abbrev filled : TorrentFile → List FileInfo → TorrentFile
filled t fs = record t {
  files = located_all t.piece_size 0 fs;
  full_size = total fs;
  last_piece_size = total fs % t.piece_size;
}

fill_from-located :
    (t : TorrentFile) (fs : List FileInfo)
    → 0 < t.piece_size
    → t.pieces ≢ []
    → fs ≢ []
    → t.full_size ≡ 0
    → total fs + t.piece_size < u64_mod
    → EndsWithin t.piece_size 0 fs
    → fill_from t fs ≡ ok (filled t fs)
fill_from-located t [] z p n e l w = absurd (n refl)
fill_from-located t (f ∷ fs) z p n e l w =
    let placed = start_cursor t.piece_size t.full_size in
    let within =
      place_files-within t.piece_size 0 t.full_size (f ∷ fs) z (omega arith) (omega arith) w in
    let t' : TorrentFile = record t {
      files = located_all t.piece_size 0 (f ∷ fs);
      full_size = t.full_size + total (f ∷ fs);
    } in
    let sum : t.full_size + total (f ∷ fs) ≡ total (f ∷ fs) = omega arith in
    rw (placed, within) (ground (arith, check_some t.pieces t' p z, sum))

-- A torrent with files none of which ends where a piece ends, and with no size that overflows: each
-- file gets the piece and the offset of its first byte and of its last, and the sizes are those of
-- all bytes and of the rest that the last piece holds.
pub fill_piece_offsets-located :
    (t : TorrentFile)
    → 0 < t.piece_size
    → t.pieces ≢ []
    → t.files ≢ []
    → t.full_size ≡ 0
    → total t.files + t.piece_size < u64_mod
    → EndsWithin t.piece_size 0 t.files
    → fill_piece_offsets t
      ≡ ok (record t {
        files = located_all t.piece_size 0 t.files;
        full_size = total t.files;
        last_piece_size = total t.files % t.piece_size;
      })
unfolding fill_piece_offsets
fill_piece_offsets-located t z p n e l w = fill_from-located t t.files z p n e l w

first_index :
    (size : ℕ) (c : Cursor) (g : FileInfo) → (place_file size c g).0.first_piece.index ≡ c.index
unfolding place_file
first_index size c g = refl

-- A first file of some bytes that ends where a piece ends, and with no size that overflows: the loop
-- gives its last piece one too high, and the file behind it starts one piece too late.
pub place_files-boundary :
    (size full : ℕ) (f g : FileInfo) (fs : List FileInfo)
    → 0 < size
    → 0 < f.size
    → f.size % size ≡ 0
    → f.size + size < u64_mod
    → full + f.size < u64_mod
    → (f' g' : FileInfo) × (fs' : List FileInfo) × ((place_files size
          (record { index = 0; offset = 0; full_size = full })
          (f ∷ g ∷ fs)).0
        ≡ f' ∷ g' ∷ fs')
      × (f'.last_piece.index ≡ (f.size - 1) / size + 1)
      × (g'.first_piece.index ≡ f.size / size + 1)
unfolding place_files
place_files-boundary size full f g fs z n b l m =
    let c : Cursor = record { index = 0; offset = 0; full_size = full } in
    let step =
      place_file-boundary size 0 full f z (omega arith) m (omega arith)
        (ap (λ k. k % size) (zero-add f.size) ∙ b) in
    let first = rw (zero-add f.size) at (rw (← start_cursor size full) at step) in
    (
      (place_file size c f).0,
      (place_file size (place_file size c f).1 g).0,
      (place_files size (place_file size (place_file size c f).1 g).1 fs).0,
      refl,
      ap (λ r. r.0.last_piece.index) first,
      first_index size (place_file size c f).1 g ∙ ap (λ r. r.1.index) first,
    )
