-- ===== src/TrackerResponse/Peers.antt =====
-- The compact form of the peers in a tracker's response.
use torrent_client.Base.{
  ℕ, ◌+◌, ◌*◌, ◌/◌, ◌%◌, ◌≡◌, refl, ap, ◌∙◌, Bytes, List, [], ◌∷◌, ◌++◌, Option, some, length,
  get_elem?, drop-length-append, arith,
}
use native.Mathlib.Nat.{div-add-mod}
use torrent_client.BeParser.{BeToken, str}
use torrent_client.SubStrings.{SubStrings}
use torrent_client.TokenListProcessor.{filled}
use torrent_client.TokenListProcessor.Values.{token_at-get_elem?}
use torrent_client.TrackerResponse.{SockAddr, Peer, TrackerResponse, resize, all_set, compact_peers}
use torrent_client.TrackerResponse.Filling.{fill_peers_compact, fill_peers}

-- Where a peer listens
pub record Endpoint : Type 0 where
  pub a : ℕ
  pub b : ℕ
  pub c : ℕ
  pub d : ℕ
  pub port : ℕ

abbrev pub address : Endpoint → Bytes
address e = e.a ∷ e.b ∷ e.c ∷ e.d ∷ []

abbrev pub compact : List Endpoint → Bytes
compact [] = []
compact (e ∷ es) = e.a ∷ e.b ∷ e.c ∷ e.d ∷ e.port / 256 ∷ e.port % 256 ∷ compact es

module _ (text_of : Bytes → Bytes) where
  -- The peer of a new response
  abbrev pub peer_at : Endpoint → Peer
  peer_at e = record {
    id = [];
    ip = text_of (address e);
    port = e.port;
    saddr = record {
      sin_family = 2;
      s_addr = address e;
      sin_port = e.port / 256 ∷ e.port % 256 ∷ [];
    };
  }

  abbrev pub peers_at : List Endpoint → List Peer
  peers_at [] = []
  peers_at (e ∷ es) = peer_at e ∷ peers_at es

  port_again : (n : ℕ) → n / 256 * 256 + n % 256 ≡ n
  port_again n = omega (arith, div-add-mod n 256)

  compact_peers-compact :
      (es : List Endpoint) (rest : Bytes)
      → compact_peers (λ bytes. some (text_of bytes)) (resize (length es) []) (compact es ++ rest)
        ≡ all_set (peers_at es)
  unfolding compact_peers
  compact_peers-compact [] rest = refl
  compact_peers-compact (e ∷ es) rest = rw (compact_peers-compact es rest, port_again e.port) refl

  length-compact : (es : List Endpoint) → length (compact es) ≡ 6 * length es
  length-compact [] = omega arith
  length-compact (e ∷ es) = omega (arith, length-compact es)

  -- Where the key peers is followed by a string of any number of peers in their compact form, a
  -- response without peers gets exactly these peers, in order, each with its address, its port and
  -- the socket address of both, and the next token is the one behind the string. inet_ntop gives a
  -- text for every address, and the token holds the place of the string.
  pub fill_peers-compact :
      (ss : SubStrings) (get_sockaddr_in : Bytes → ℕ → Option SockAddr)
      (tokens : List (BeToken ss.SubString)) (front rest : Bytes) (es : List Endpoint)
      (sub : ss.SubString) (t : TrackerResponse) (i : ℕ)
      → get_elem? tokens (i + 1) ≡ some (record { type = str; substr = sub })
      → ss.start sub ≡ length front
      → ss.length sub ≡ length (compact es)
      → t.peers ≡ []
      → fill_peers ss
          (λ bytes. some (text_of bytes))
          get_sockaddr_in
          tokens
          (front ++ (compact es ++ rest))
          t
          i
        ≡ filled (record t { peers = peers_at es }) (i + 2)
  unfolding fill_peers fill_peers_compact
  fill_peers-compact ss get_sockaddr_in tokens front rest es sub t i at_token starts lengths
        none_yet =
      let number : length (compact es) / 6 ≡ length es = omega (arith, length-compact es) in
      token_at-get_elem? tokens (i + 1) _ _ at_token
      ∙ rw
          (
            starts,
            lengths,
            none_yet,
            number,
            drop-length-append front (compact es ++ rest),
            compact_peers-compact es rest,
          )
          (ap (filled (record t { peers = peers_at es })) (omega arith))
