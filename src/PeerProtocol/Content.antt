-- ===== src/PeerProtocol/Content.antt =====
-- What a connection of peer_protocol.cpp keeps true while its peer is honest, and what it writes to the
-- files.
pub mod Picking
pub mod Storing
pub mod Frames
pub mod Answers
pub mod Taking
pub mod Delivery
use torrent_client.Base.{
  ℕ, ◌+◌, ◌-◌, ◌≤◌, ◌<◌, ◌≡◌, ◌≢◌, ◌⊎◌, Bool, true, false, List, Outcome, ok, throws, undefined,
  Exception, ◌^◌, get_or, take, drop, length, minus_one, u64_mod, [], ◌∷◌,
}
use torrent_client.Platform.{Platform}
use torrent_client.Messages.{ntohl_at}
use torrent_client.Piece.{Piece, Buffer, full}
use torrent_client.Piece.Assembly.{Holds}
use torrent_client.PieceList.{PieceList, size_of}
use torrent_client.Files.{File, write_piece}
use torrent_client.PeerProtocol.{
  PeerProtocol, State, handshaking, acting, handshake_size, bytes_from,
}
use torrent_client.PeerProtocol.Bits.{Lacks}
use torrent_client.PeerProtocol.Framing.{IsIncomplete}

-- The pieces of a torrent: how many there are, and the size and the bytes of each by its index.
pub record Torrent : Type 0 where
  pub count : ℕ
  pub size : ℕ → ℕ
  pub content : ℕ → ℕ → ℕ

-- The sizes and the number of pieces fit their types in the code.
abbrev pub Fits : Torrent → Type 0
Fits torrent = (i : ℕ) → torrent.size i < u64_mod

module _ (P : Platform) (torrent : Torrent) where
  -- An index of a piece, or the -1 that the list may hold too.
  abbrev pub IsKnown : ℕ → Type 0
  IsKnown i = (i < torrent.count) ⊎ (i ≡ minus_one)

  abbrev pub AreKnown : List ℕ → Type 0
  AreKnown [] = Unit {0}
  AreKnown (i ∷ is) = IsKnown i × AreKnown is

  -- The list of pieces gives out pieces of the torrent, with their sizes.
  pub record IsStocked (l : PieceList) : Type 0 where
    pub last : l.max_piece_num + 1 ≡ torrent.count
    pub sizes : (i : ℕ) → size_of l i ≡ torrent.size i
    pub known : AreKnown l.returned_pieces

  -- A connection without a piece.
  pub record IsIdle (s : PeerProtocol P) : Type 0 where
    pub no_size : s.piece_size ≡ 0
    pub no_index : s.piece_index ≡ minus_one

  -- A connection on a piece: what came of it is in m_piece, byte by byte as in the content, and
  -- something is still missing.
  pub record IsBusy (s : PeerProtocol P) : Type 0 where
    pub came : ℕ → Bool
    pub buffer : Buffer
    pub holds : Holds s.piece_index (torrent.content s.piece_index) came s.piece buffer
    pub known : IsKnown s.piece_index
    pub whole : s.piece.full_piece_size ≡ s.piece_size
    pub sized : s.piece_size ≡ torrent.size s.piece_index
    pub positive : 0 < s.piece_size
    pub unfinished : full s.piece ≡ false

  abbrev pub Works : PeerProtocol P → Type 0
  Works s = IsIdle s ⊎ IsBusy s

  -- The bytes of a whole piece.
  abbrev pub Agrees : ℕ → (ℕ → ℕ) → Type 0
  Agrees id source = (i : ℕ) → i < torrent.size id → source i ≡ torrent.content id i

  -- A call of Files::write_piece with a whole piece of the content, and its outcome.
  abbrev pub Writes : List (File P) → Outcome (List (File P)) → Type 0
  Writes fs o =
      (id : ℕ) × ((source : ℕ → ℕ) × ((id < torrent.count)
          × ((0 < torrent.size id)
              × (Agrees id source × (write_piece P id source (torrent.size id) fs ≡ o)))))

  -- The files after some such calls, each of which returned or threw.
  pub data Saves (fs : List (File P)) : List (File P) → Type 0 where
    nothing : Saves fs fs
    returned : {gs hs : List (File P)} → Saves fs gs → Writes gs (ok hs) → Saves fs hs
    threw :
        {gs hs : List (File P)} {e : Exception}
        → Saves fs gs
        → Writes gs (throws e hs)
        → Saves fs hs

  -- A connection among others, when the files were `fs` at first.
  pub record Keeps (fs : List (File P)) (s : PeerProtocol P) : Type 0 where
    pub works : Works s
    pub stocked : IsStocked s.piece_list
    pub saves : Saves fs s.files

  -- The outcome of a call. An exception may leave the connection with an empty piece; behaviour is
  -- undefined only where that of such a write is, or where BitSet does not have every bit.
  abbrev pub Ends : List (File P) → Outcome (PeerProtocol P) → Type 0
  Ends fs (ok s) = Keeps fs s
  Ends fs (throws e s) = IsStocked s.piece_list × Saves fs s.files
  Ends fs undefined =
      ((gs : List (File P)) × (Saves fs gs × Writes gs undefined))
      ⊎ ((bits : P.BitSet) × Lacks P bits)

  -- The block of a piece message from an honest peer: some bytes inside the piece, and of it.
  pub record IsBlock (frame : List ℕ) : Type 0 where
    pub some_bytes : 13 < length frame
    pub bounded : length frame < 2 ^ 64
    pub index_fits : ntohl_at frame 5 < 2 ^ 32
    pub inside : ntohl_at frame 9 + (length frame - 13) ≤ torrent.size (ntohl_at frame 5)
    pub genuine :
        (i : ℕ)
        → i < length frame - 13
        → bytes_from frame 13 i ≡ torrent.content (ntohl_at frame 5) (ntohl_at frame 9 + i)

  -- A message of an honest peer, by its type.
  abbrev pub IsGenuine : ℕ → List ℕ → Type 0
  IsGenuine id frame = (id ≡ 4 → 9 ≤ length frame) × (id ≡ 7 → IsBlock frame)

  -- Messages of an honest peer, up to one that is not complete.
  pub data AreGenuine : List ℕ → Type 0 where
    ends : (rest : List ℕ) → IsIncomplete P rest → AreGenuine rest
    keeps_alive :
        (rest : List ℕ)
        → 4 < length rest
        → ntohl_at rest 0 ≡ 0
        → AreGenuine (drop 4 rest)
        → AreGenuine rest
    whole :
        (rest : List ℕ)
        → 4 < length rest
        → ntohl_at rest 0 ≢ 0
        → ntohl_at rest 0 + 4 ≤ length rest
        → IsGenuine (get_or rest 4 0) (take (ntohl_at rest 0 + 4) rest)
        → AreGenuine (drop (ntohl_at rest 0 + 4) rest)
        → AreGenuine rest

  -- The messages in received bytes: the handshake is no message.
  abbrev pub messages_in : State → List ℕ → List ℕ
  messages_in acting received = received
  messages_in handshaking received = drop handshake_size received
