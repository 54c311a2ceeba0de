-- ===== src/TorrentFile/Reading/Pieces.antt =====
-- The hashes that fill_pieces of torrent_file.cpp cuts the value of "pieces" into.
use torrent_client.Base.{
  ℕ, zero, suc, ◌+◌, ◌*◌, ◌/◌, ◌%◌, ◌≡◌, refl, sym, Bytes, List, [], ◌∷◌, ◌++◌, take, drop, length,
  length-drop, length-take, take-append-drop, drop-drop, drop_all, arith,
}
use native.Mathlib.Nat.{div-add-mod}
use torrent_client.BeParser.{BeToken}
use torrent_client.SubStrings.{SubStrings}
use torrent_client.TokenListProcessor.{filled}
use torrent_client.TorrentFile.{TorrentFile}
use torrent_client.TorrentFile.Reading.{cut_pieces, fill_pieces}

abbrev pub join : List Bytes → Bytes
join [] = []
join (piece ∷ pieces) = piece ++ join pieces

-- Every one of them has 20 bytes.
abbrev pub AreHashes : List Bytes → Type 0
AreHashes [] = Unit {0}
AreHashes (piece ∷ pieces) = (length piece ≡ 20) × AreHashes pieces

module _ (ss : SubStrings) (tokens : List (BeToken ss.SubString)) (source : Bytes)
    (value : ss.SubString)
    (cuts : (offset count : ℕ)
      → ss.substr value source offset count ≡ take count (drop offset (ss.str value source)))
    (measures : ss.length value ≡ length (ss.str value source)) where
  pub join-cut_pieces :
      (count i : ℕ)
      → length (ss.str value source) ≡ (i + count) * 20
      → join (cut_pieces ss tokens source value count i) ≡ drop (i * 20) (ss.str value source)
  join-cut_pieces zero i h = sym (drop_all (i * 20) (ss.str value source) (omega arith))
  join-cut_pieces (suc count) i h =
      let left = drop (i * 20) (ss.str value source) in
      let next : (i + 1) * 20 ≡ i * 20 + 20 = omega arith in
      rw
        (
          cuts (i * 20) 20,
          join-cut_pieces count (i + 1) (omega arith),
          next,
          sym (drop-drop 20 (i * 20) (ss.str value source)),
        )
        (take-append-drop 20 left)

  pub AreHashes-cut_pieces :
      (count i : ℕ)
      → length (ss.str value source) ≡ (i + count) * 20
      → AreHashes (cut_pieces ss tokens source value count i)
  AreHashes-cut_pieces zero i h = tt
  AreHashes-cut_pieces (suc count) i h = (
    rw (cuts (i * 20) 20) (
        omega (
          arith,
          length-take 20 (drop (i * 20) (ss.str value source)),
          length-drop (i * 20) (ss.str value source),
        )),
    AreHashes-cut_pieces count (i + 1) (omega arith),
  )

  -- For a value of pieces whose length 20 divides, fill_pieces adds hashes of 20 bytes each that
  -- are, one behind the other, the bytes of the value. SubString cuts the bytes that it stands for,
  -- and tells their number.
  pub fill_pieces-join :
      (t : TorrentFile) (i : ℕ)
      → length (ss.str value source) % 20 ≡ 0
      → (pieces : List Bytes) × ((fill_pieces ss tokens source value t i
            ≡ filled (record t { pieces = t.pieces ++ pieces }) (i + 1))
          × ((join pieces ≡ ss.str value source) × AreHashes pieces))
  unfolding fill_pieces
  fill_pieces-join t i even =
      let bytes = ss.str value source in
      let whole : length bytes ≡ (0 + length bytes / 20) * 20 =
        omega (arith, div-add-mod (length bytes) 20) in
      (
        cut_pieces ss tokens source value (length bytes / 20) 0,
        (
          rw (measures, even) refl,
          (
            join-cut_pieces (length bytes / 20) 0 whole,
            AreHashes-cut_pieces (length bytes / 20) 0 whole,
          ),
        ),
      )
