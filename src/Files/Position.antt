-- ===== src/Files/Position.antt =====
-- Where in a file File::write_piece puts the bytes of a piece.
use torrent_client.Base.{
  ℕ, ◌+◌, ◌-◌, ◌*◌, ◌≤◌, ◌<◌, ◌≡◌, arith, ◌==◌, if◌then◌else◌, u64_mod, sub64, add64, mul64,
}
use torrent_client.Platform.{Platform}
use torrent_client.Files.{File, first_index, part_offset, offset_in_file}

distance : (a b n : ℕ) → a ≤ b → b * n ≡ a * n + (b - a) * n
distance a b n h = grind arith

le-mul : (a n : ℕ) → 0 < n → a ≤ a * n
le-mul a n h = grind arith

shifted :
    (a b n o : ℕ)
    → a ≤ b
    → o < n
    → (b + 1) * n < u64_mod
    → a * n + o + add64 (sub64 n o) (mul64 (sub64 b a) n) ≡ b * n + n
shifted a b n o h l m =
    let split = distance a b n h in
    let small = le-mul b n (omega arith) in
    let d : sub64 b a ≡ b - a = omega arith in rw d (omega (arith, split))

module _ (P : Platform) where
  -- The first byte that goes to the file is byte id * size + part_offset of the torrent; the file
  -- itself begins at byte first_index * size + first_piece.offset. For the file's first piece it is
  -- written at its place, and for any later piece one whole piece behind its place, where no size
  -- overflows.
  pub offset_in_file-shifted :
      (f : File P) (id : ℕ)
      → first_index P f ≤ id
      → f.info.first_piece.offset < f.piece_size
      → (id + 1) * f.piece_size < u64_mod
      → first_index P f * f.piece_size + f.info.first_piece.offset + offset_in_file P f id
        ≡ id * f.piece_size
          + part_offset P f id
          + (if id == first_index P f then 0 else f.piece_size)
  unfolding offset_in_file part_offset
  offset_in_file-shifted f id h l m =
      ground (arith, shifted (first_index P f) id f.piece_size f.info.first_piece.offset h l m)
