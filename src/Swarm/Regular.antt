-- ===== src/Swarm/Regular.antt =====
-- A torrent file whose files fit its pieces, and what its pieces are.
use torrent_client.Base.{
  ℕ, ◌+◌, ◌-◌, ◌*◌, ◌%◌, ◌≤◌, ◌<◌, ◌≡◌, ◌≢◌, refl, sym, ap, ◌∙◌, inl, inr, List, [], ◌∷◌, length,
  u64_mod, arith, ok, ◌==◌, Bytes, Bool-cases,
}
use native.Mathlib.Nat.{mod-lt, add-zero, add_assoc}
use torrent_client.Platform.{Platform}
use torrent_client.TorrentFile.{TorrentFile, FileInfo, fill_piece_offsets}
use torrent_client.TorrentFile.Offsets.{located_all, total, EndsWithin, fill_piece_offsets-located}
use torrent_client.TorrentFile.Layout.{NoneEmpty, size_at, size_at-lem}
use torrent_client.PieceList.{new_piece_list}
use torrent_client.PieceList.Sizes.{HasPieces}
use torrent_client.PeerProtocol.Content.{Torrent, Fits, IsStocked}

-- The files of a torrent fit its pieces: no file is empty or ends where a piece ends, and there is a
-- hash for each piece.
pub record IsRegular (t : TorrentFile) : Type 0 where
  pub unplaced : t.full_size ≡ 0
  pub some_files : t.files ≢ []
  pub none_empty : NoneEmpty t.files
  pub ends_within : EndsWithin t.piece_size 0 t.files
  pub has_pieces : HasPieces (total t.files) t.piece_size (length t.pieces)
  pub bounded : total t.files + t.piece_size < u64_mod

pub ok_injective {ℓ} : {A : Type ℓ} {a b : A} → ok a ≡ ok b → a ≡ b
ok_injective e = cc

EndsWithin-total :
    (size start : ℕ) (f : FileInfo) (fs : List FileInfo)
    → EndsWithin size start (f ∷ fs)
    → (start + total (f ∷ fs)) % size ≢ 0
EndsWithin-total size start f [] h e =
    h.0 (ap (λ n. (start + n) % size) (sym (add-zero f.size)) ∙ e)
EndsWithin-total size start f (g ∷ fs) h e =
    EndsWithin-total size (start + f.size) g fs h.1
      (ap (λ n. n % size) (add_assoc start f.size (total (g ∷ fs))) ∙ e)

pub rest_of_total :
    (size : ℕ) (fs : List FileInfo) → fs ≢ [] → EndsWithin size 0 fs → total fs % size ≢ 0
rest_of_total size [] n h e = absurd (n refl)
rest_of_total size (f ∷ fs) n h e =
    EndsWithin-total size 0 f fs h (ap (λ n. n % size) (omega arith) ∙ e)

le_mul : (a b : ℕ) → 0 < b → a ≤ a * b
le_mul a b h = grind arith

-- The torrent of a regular file, as the program gives it out, with some content.
abbrev pub torrent_of : TorrentFile → (ℕ → ℕ → ℕ) → Torrent
torrent_of t content = record {
  count = length t.pieces;
  size = size_at (total t.files) t.piece_size (length t.pieces);
  content = content;
}

module _ (t : TorrentFile) (regular : IsRegular t) where
  some_pieces : (hashes : List Bytes) → 0 < length hashes → hashes ≢ []
  some_pieces [] h e = omega arith
  some_pieces (x ∷ xs) h e = cc

  pub placed :
      fill_piece_offsets t
      ≡ ok (record t {
        files = located_all t.piece_size 0 t.files;
        full_size = total t.files;
        last_piece_size = total t.files % t.piece_size;
      })
  placed =
      fill_piece_offsets-located t regular.has_pieces.0 (some_pieces t.pieces regular.has_pieces.3)
        regular.some_files regular.unplaced regular.bounded regular.ends_within

  pub few_pieces : length t.pieces < u64_mod
  few_pieces = omega (
    arith,
    regular.has_pieces.1,
    regular.has_pieces.3,
    regular.bounded,
    regular.has_pieces.0,
    le_mul (length t.pieces - 1) t.piece_size regular.has_pieces.0,
  )

  pub torrent_of-Fits : (content : ℕ → ℕ → ℕ) → Fits (torrent_of t content)
  torrent_of-Fits content i =
      let size = t.piece_size in
      rw (size_at-lem (total t.files) size (length t.pieces) regular.has_pieces few_pieces i)
        (elim (Bool-cases (i == length t.pieces - 1)) [
          | inl s ↦
              rw s (omega (arith, mod-lt (total t.files) regular.has_pieces.0, regular.bounded))
          | inr s ↦ rw s (omega (arith, regular.bounded))
        ])

  pub torrent_of-IsStocked :
      (P : Platform) (content : ℕ → ℕ → ℕ)
      → IsStocked P
          (torrent_of t content)
          (new_piece_list (length t.pieces) (total t.files % t.piece_size) t.piece_size)
  unfolding new_piece_list
  torrent_of-IsStocked P content = record {
    last = omega (arith, regular.has_pieces.3, few_pieces);
    sizes = λ i. refl;
    known = tt;
  }
