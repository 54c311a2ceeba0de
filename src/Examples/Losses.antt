-- ===== src/Examples/Losses.antt =====
-- A connection that asks for the only piece of a torrent, and one that joins afterwards.
use torrent_client.Base.{ℕ, ◌<◌, ◌≡◌, ◌≢◌, refl, List, [], some, arith}
use torrent_client.PieceList.Handout.{count}
use torrent_client.PeerProtocol.{PeerProtocol, new_peer_protocol}
use torrent_client.Swarm.{Swarm, update, shared, closed, Reach, here, next, joins, receives}
use torrent_client.Swarm.Exclusive.{Reach-apart, closed-lost}
use torrent_client.Examples.Platforms.{in_memory}
use torrent_client.Examples.Peers.{twenty}
use torrent_client.Examples.Swarms.{
  files, swarm, new_connection, joined, greeted_connection, greeted, greeting, greeting-processed,
}

-- A peer may send anything.
abbrev Anything : PeerProtocol in_memory → List ℕ → Type 0
Anything s received = Unit {0}

greets : Reach in_memory Anything swarm greeted
unfolding new_peer_protocol
greets =
    next (next here (joins swarm 0 (twenty 9) [] (twenty 48) 0))
      (receives joined 0 new_connection greeted_connection greeting 79 refl tt greeting-processed)

abbrev joining : Swarm in_memory → Swarm in_memory
joining w = record w {
  peers =
      update 1 (some (new_peer_protocol in_memory w.files w.piece_list (twenty 9) [] (twenty 49) 0))
        w.peers;
}

Reach-apart_example :
    ((j : ℕ) (r : PeerProtocol in_memory)
      → j ≢ 0
      → (joining greeted).peers j ≡ some r
      → r.piece_index ≢ 0)
    × ((count 0 greeted.piece_list.returned_pieces ≡ 0) × (0 < greeted.piece_list.next_piece))
Reach-apart_example =
    Reach-apart in_memory Anything files 1 3 16 (joining greeted) 0 greeted_connection (omega arith)
      (omega arith) (next greets (joins greeted 1 (twenty 9) [] (twenty 49) 0)) refl
      (λ e. omega arith)

abbrev left : Swarm in_memory
left = closed in_memory 0 (shared in_memory greeted greeted_connection) greeted

closed-lost_example :
    ((j : ℕ) (r : PeerProtocol in_memory) → (joining left).peers j ≡ some r → r.piece_index ≢ 0)
    × ((count 0 left.piece_list.returned_pieces ≡ 0) × (0 < left.piece_list.next_piece))
closed-lost_example =
    closed-lost in_memory Anything files 1 3 16 greeted (joining left) 0 greeted_connection
      (omega arith) (omega arith) greets refl (λ e. omega arith)
      (next here (joins left 1 (twenty 9) [] (twenty 49) 0))
