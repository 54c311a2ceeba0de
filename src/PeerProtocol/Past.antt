-- ===== src/PeerProtocol/Past.antt =====
-- m_state of a connection under the loop of process_message.
use torrent_client.Base.{
  ℕ, zero, suc, ◌+◌, ◌≡◌, subst, List, Outcome, ok, throws, undefined, get_or, take, drop,
}
use torrent_client.Platform.{Platform}
use torrent_client.Messages.{ntohl_at}
use torrent_client.PeerProtocol.{PeerProtocol, acting}
use torrent_client.PeerProtocol.Handlers.{Progress, continue, dispatch, process_frames}
use torrent_client.PeerProtocol.Framing.{
  begins, short, keeps_alive, partial, whole, frames_short, frames_keep_alive, frames_partial,
  frames_whole,
}
use torrent_client.PeerProtocol.Acting.{KeepsState, dispatch-KeepsState}

module _ (P : Platform) where
  -- An outcome of the loop after which the connection is past its handshake.
  unfoldable pub IsPast : Outcome (Progress P) → Type 0
  IsPast (ok (s, rest)) = s.state ≡ acting
  IsPast (throws e (s, rest)) = s.state ≡ acting
  IsPast undefined = Unit {0}

  continue-IsPast :
      (o : Outcome (PeerProtocol P)) (rest : List ℕ) (k : PeerProtocol P → Outcome (Progress P))
      → KeepsState P acting o
      → ((s : PeerProtocol P) → s.state ≡ acting → IsPast (k s))
      → IsPast (continue P o rest k)
  unfolding IsPast
  continue-IsPast (ok s) rest k h l = l s h
  continue-IsPast (throws e s) rest k h l = h
  continue-IsPast undefined rest k h l = tt

  pub frames-IsPast :
      (fuel : ℕ) (a : List ℕ) (s : PeerProtocol P)
      → s.state ≡ acting
      → IsPast (process_frames P fuel a s)
  unfolding IsPast process_frames
  frames-IsPast zero a s h = h
  frames-IsPast (suc fuel) a s h = elim (begins a) [
    | short x ↦ rw (frames_short P fuel a s x) h
    | partial x y z ↦ rw (frames_partial P fuel a s x y z) h
    | keeps_alive x y ↦ rw (frames_keep_alive P fuel a s x y) (frames-IsPast fuel (drop 4 a) s h)
    | whole x y z ↦ rw (frames_whole P fuel a s x y z) (
        continue-IsPast _ a _
          (subst (λ t. KeepsState P t (dispatch P (get_or a 4 0) (take (ntohl_at a 0 + 4) a) s)) h
            (dispatch-KeepsState P (get_or a 4 0) (take (ntohl_at a 0 + 4) a) s))
          (λ s' e. frames-IsPast fuel (drop (ntohl_at a 0 + 4) a) s' e))
  ]
