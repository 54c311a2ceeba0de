-- ===== src/PeerProtocol/Greeting.antt =====
-- PeerProtocol::handshake: what the first message to the peer holds.
use torrent_client.Base.{
  ℕ, ◌≡◌, refl, sym, ap, ◌∙◌, List, [], ◌∷◌, ◌++◌, append_assoc, append-nil, write_at, write_over,
  length, length-append, arith,
}
use torrent_client.PeerProtocol.{handshake, protocol_name}

-- The handshake holds the length and the name of the protocol, the info hash and the digits, each at
-- its place, for an info hash of 20 bytes and 20 digits. The 8 reserved bytes are not set: they are
-- what the new array held there.
pub handshake_lem :
    (first : ℕ) (name reserved hash digits info_hash random : List ℕ)
    → length name ≡ 19
    → length reserved ≡ 8
    → length hash ≡ 20
    → length digits ≡ 20
    → length info_hash ≡ 20
    → length random ≡ 20
    → handshake (first ∷ (name ++ (reserved ++ (hash ++ digits)))) info_hash random
      ≡ 19 ∷ (protocol_name ++ (reserved ++ (info_hash ++ random)))
unfolding handshake
handshake_lem first name reserved hash digits info_hash random a b c d e f =
    let named =
      write_over 1 (19 ∷ []) protocol_name name (reserved ++ (hash ++ digits)) refl (sym a) in
    let front : List ℕ = 19 ∷ (protocol_name ++ reserved) in
    let hashed =
      write_over 28 front info_hash hash digits
        (omega (arith, b, length-append protocol_name reserved)) (e ∙ sym c) in
    let ended =
      write_over 48 (front ++ info_hash) random digits []
        (omega (arith, b, e, length-append protocol_name reserved, length-append front info_hash))
        (f ∙ sym d) in
    let joined : (ds : List ℕ) → front ++ (info_hash ++ ds) ≡ (front ++ info_hash) ++ (ds ++ []) =
      λ ds. rw (append-nil ds, append_assoc reserved info_hash ds) refl in
    ap (λ m. write_at 48 random (write_at 28 info_hash m)) named
    ∙ ap (write_at 48 random) (hashed ∙ joined digits)
    ∙ ended
    ∙ sym (joined random)
