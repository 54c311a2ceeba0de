-- ===== src/Examples/Sizes.antt =====
-- A torrent that its piece size divides, and the bits of a peer for nine pieces.
use torrent_client.Base.{
  ℕ, ◌+◌, ◌%◌, ◌<◌, ◌≡◌, ◌≢◌, ◌↔◌, refl, [], ◌∷◌, true, false, ◌&&◌, ◌==◌, ltb, if◌then◌else◌,
  codes, ok, ◌*◌, arith,
}
use torrent_client.Platform.{Platform}
use torrent_client.TorrentFile.{TorrentFile, fill_piece_offsets, place_files, place_file}
use torrent_client.TorrentFile.Loading.{new_torrent_file}
use torrent_client.PieceList.{new_piece_list, size_of}
use torrent_client.PieceList.Sizes.{bytes_of_piece, size_of-bytes_of_piece}
use torrent_client.PeerProtocol.{new_peer_protocol}
use torrent_client.PeerProtocol.Bits.{new_peer_protocol-has_iff}
use torrent_client.Examples.Peers.{twenty}

-- One file of 32 bytes, in pieces of 16.
abbrev whole_pieces : TorrentFile
whole_pieces = record (new_torrent_file []) {
  pieces = [] ∷ [] ∷ [];
  piece_size = 16;
  files =
      record {
        path = codes "a" ∷ [];
        dir_name = [];
        md5_sum = [];
        size = 32;
        first_piece = record { index = 0; offset = 0 };
        last_piece = record { index = 0; offset = 0 };
      }
      ∷ [];
}

-- Its last piece is said to be 2, and is 1.
abbrev whole_pieces_placed : TorrentFile
whole_pieces_placed = record whole_pieces {
  files =
      record {
        path = codes "a" ∷ [];
        dir_name = [];
        md5_sum = [];
        size = 32;
        first_piece = record { index = 0; offset = 0 };
        last_piece = record { index = 2; offset = 16 };
      }
      ∷ [];
  full_size = 32;
  last_piece_size = 0;
}

placed : fill_piece_offsets whole_pieces ≡ ok whole_pieces_placed
unfolding fill_piece_offsets place_files place_file
placed = refl

-- The last of two pieces of 16 bytes is to have 16 bytes too, and gets 0.
size_of-bytes_of_piece_example :
    size_of (new_piece_list 2 0 16) 1
    ≡ (if (32 % 16 == 0) && (1 + 1 == 2) then 0 else bytes_of_piece 32 16 1)
size_of-bytes_of_piece_example =
    size_of-bytes_of_piece whole_pieces whole_pieces_placed 1 placed
      (omega arith, omega arith, omega arith, omega arith) (omega arith) (omega arith)

-- A set of as many bits as were bound.
abbrev counted_bits : Platform
counted_bits = record {
  BitSet = ℕ;
  no_bits = 0;
  bind = λ n b. 8 * n;
  bind_data = λ n bytes b. 8 * n;
  has = λ i b. ltb i b;
  test = λ i b. false;
  mark = λ i b. b;
  Fd = ℕ → ℕ;
  pwrite = λ fd source n at. (n, fd);
  new_bytes = λ n i. 0;
}

new_peer_protocol-has_iff_example :
    ((i : ℕ)
      → i < 9
      → counted_bits.has i
          (new_peer_protocol counted_bits []
            (new_piece_list 9 5 16)
            (twenty 1)
            []
            (twenty 2)
            0).clients_pieces
        ≡ true)
    ↔ (9 % 8 ≢ 1)
new_peer_protocol-has_iff_example =
    new_peer_protocol-has_iff counted_bits (λ k i bits. refl) [] 9 5 16 (twenty 1) [] (twenty 2) 0
      (omega arith) (omega arith)
