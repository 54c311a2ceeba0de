-- ===== src/Examples/Deliveries.antt =====
-- The answer to the only request of a connection.
use torrent_client.Base.{
  true, ◌-◌, ℕ, ◌+◌, ◌<◌, ◌≡◌, refl, ap, ◌==◌, ◌||◌, ◌&&◌, leb, ltb, if◌then◌else◌, [], ◌∷◌, false,
  ok, arith,
}
use torrent_client.Messages.{piece_message}
use torrent_client.Files.{File, write_piece, write_file}
use torrent_client.Piece
use torrent_client.PeerProtocol.Handlers.{process_message}
use torrent_client.Swarm.{shared}
use torrent_client.Files.Source.{ReadsCount}
use torrent_client.Piece.{new_piece}
use torrent_client.Piece.Overlap.{block}
use torrent_client.Piece.Cutting.{in_block}
use torrent_client.PeerProtocol.Content.Answers.{answers}
use torrent_client.PeerProtocol.Content.Delivery.{moved_on, beside, answered-written}
use mathlib.Core.Path.{fun_ext}
use torrent_client.Examples.Platforms.{in_memory}
use torrent_client.Examples.Swarms.{letters, file_info, files, greeted_connection, greeted}

in_memory-ReadsCount : ReadsCount in_memory
in_memory-ReadsCount fd source source' count position h =
    ap (λ (g : ℕ → ℕ). (count, g)) (fun_ext (λ i. ground (arith, h (i - position))))

abbrev letters_file : File in_memory
letters_file = record {
  bitset = λ i. (i == 0) || false;
  info = file_info;
  piece_size = 16;
  full = false;
  fd = λ i. if leb 0 i && ltb i (0 + 3) then letters 0 (0 + (i - 0)) else 0;
}

letters_written : write_piece in_memory 0 (letters 0) 3 files ≡ ok (letters_file ∷ [])
unfolding write_piece write_file
letters_written = refl

greeted_piece : greeted_connection.piece ≡ Piece.init 0 3 (λ i. 0) new_piece
unfolding Piece.init
greeted_piece = refl

block_completes : (i : ℕ) → i < 3 → (false || in_block i (block 0 3)) ≡ true
block_completes i l = ground arith

answered-written_example :
    process_message in_memory
      (answers 0 (letters 0) (block 0 3 ∷ []))
      (shared in_memory greeted greeted_connection)
    ≡ beside in_memory 16 (moved_on in_memory (letters_file ∷ []) greeted_connection)
unfolding piece_message
answered-written_example =
    answered-written in_memory 0 (letters 0) (omega arith) 3 in_memory-ReadsCount (omega arith)
      (letters_file ∷ []) (block 0 3 ∷ []) (λ i. 0) new_piece greeted_connection refl greeted_piece
      refl refl ((0, omega arith, refl, refl), tt) block_completes letters_written
