-- ===== src/Files/Source.antt =====
-- Files::write_piece depends on no bytes but those of the piece.
use torrent_client.Base.{
  ℕ, zero, suc, ◌+◌, ◌<◌, ◌≡◌, refl, ap, inl, inr, List, [], ◌∷◌, Bool-cases, ltb, ltb→ge, ◌||◌,
  arith,
}
use torrent_client.Platform.{Platform}
use torrent_client.Files.{
  File, first_index, last_index, prepend, part_offset, part_size, offset_in_file, written,
  write_file, write_while, write_from, write_piece, write_found, Searched, found, out_of_bounds,
  out_of_fuel,
}

-- pwrite reads no more than the bytes that it is to write.
abbrev pub ReadsCount : Platform → Type 0
ReadsCount P =
    (fd : P.Fd) (source source' : ℕ → ℕ) (count position : ℕ)
    → ((i : ℕ) → i < count → source i ≡ source' i)
    → P.pwrite fd source count position ≡ P.pwrite fd source' count position

module _ (P : Platform) (reads : ReadsCount P) (id : ℕ) (source source' : ℕ → ℕ) (size : ℕ)
    (same : (i : ℕ) → i < size → source i ≡ source' i) where
  write_file-same : (f : File P) → write_file P id source size f ≡ write_file P id source' size f
  unfolding write_file
  write_file-same f = elim (Bool-cases (ltb id (first_index P f) || ltb (last_index P f) id)) [
    | inl t ↦ rw t refl
    | inr t ↦ elim (Bool-cases (ltb size (part_offset P f id + part_size P f id size))) [
      | inl u ↦ rw (t, u) refl
      | inr u ↦
          rw (t, u)
            (ap (written P f id (part_size P f id size)) (
              reads f.fd _ _ (part_size P f id size) (offset_in_file P f id)
                (λ i l. same (part_offset P f id + i) (omega (arith, ltb→ge _ _ u)))))
    ]
  ]

  write_while-same :
      (fs : List (File P)) → write_while P id source size fs ≡ write_while P id source' size fs
  unfolding write_while
  write_while-same [] = refl
  write_while-same (f ∷ fs) = rw (write_file-same f, write_while-same fs) refl

  write_from-same :
      (n : ℕ) (fs : List (File P))
      → write_from P n id source size fs ≡ write_from P n id source' size fs
  unfolding write_from
  write_from-same zero [] = refl
  write_from-same (suc n) [] = refl
  write_from-same zero (f ∷ fs) = rw (write_file-same f, write_while-same fs) refl
  write_from-same (suc n) (f ∷ fs) = ap (prepend f) (write_from-same n fs)

  write_found-same :
      (r : Searched) (fs : List (File P))
      → write_found P r id source size fs ≡ write_found P r id source' size fs
  write_found-same (found n) fs = write_from-same n fs
  write_found-same out_of_bounds fs = refl
  write_found-same out_of_fuel fs = refl

  pub write_piece-same :
      (fs : List (File P)) → write_piece P id source size fs ≡ write_piece P id source' size fs
  unfolding write_piece
  write_piece-same fs = write_found-same _ fs
