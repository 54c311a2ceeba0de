-- ===== src/Swarm/Defined.antt =====
-- From a torrent file to the writes of all connections: TorrentFile places the files, Files opens them,
-- PieceList gives out the pieces, and no write of a piece takes bytes from behind it.
use torrent_client.Base.{ℕ, ◌≡◌, List, length, ok}
use torrent_client.Platform.{Platform}
use torrent_client.TorrentFile.{TorrentFile, fill_piece_offsets}
use torrent_client.PieceList.{PieceList, new_piece_list}
use torrent_client.Files.{File}
use torrent_client.Files.Opening.{FileSystem, opened, open_files}
use torrent_client.PeerProtocol.{PeerProtocol}
use torrent_client.Swarm.{Swarm}
use torrent_client.Swarm.Regular.{IsRegular}

module _ (P : Platform) where
  module _ (t : TorrentFile) (content : ℕ → ℕ → ℕ) (regular : IsRegular t) where
    module _ (system : FileSystem P.Fd) (t' : TorrentFile) (fs : List (File P))
        (u u' : system.State) (filled : fill_piece_offsets t ≡ ok t')
        (files_opened : open_files P system t'.files t'.piece_size u ≡ opened fs u') where
      abbrev pub pieces_of : TorrentFile → PieceList
      pieces_of t = new_piece_list (length t.pieces) t.last_piece_size t.piece_size
