-- ===== src/PeerProtocol/Resuming.antt =====
-- The loop of process_message over bytes in two portions.
use torrent_client.Base.{
  ℕ, zero, suc, ◌+◌, ◌≤◌, ◌<◌, ◌≡◌, ◌≢◌, refl, sym, ap, ◌∙◌, List, ◌++◌, Outcome, ok, throws,
  undefined, get_or, take, drop, length, length-drop, length-append, take-append, drop-append,
  get_or-append, arith,
}
use torrent_client.Platform.{Platform}
use torrent_client.Messages.{ntohl_at}
use torrent_client.PeerProtocol.{PeerProtocol}
use torrent_client.PeerProtocol.Handlers.{Progress, continue, dispatch, process_frames}
use torrent_client.PeerProtocol.Framing.{
  begins, short, keeps_alive, partial, whole, frames_short, frames_keep_alive, frames_partial,
  frames_whole, frames_fuel, continue-ext,
}

ntohl_at-append : (a b : List ℕ) → 4 < length a → ntohl_at (a ++ b) 0 ≡ ntohl_at a 0
unfolding ntohl_at
ntohl_at-append a b l = rw (
  get_or-append a b 0 0 (omega arith),
  get_or-append a b 1 0 (omega arith),
  get_or-append a b 2 0 (omega arith),
  get_or-append a b 3 0 (omega arith),
)

module _ (P : Platform) where
  -- The loop goes on with more bytes.
  unfoldable pub resume : ℕ → List ℕ → Outcome (Progress P) → Outcome (Progress P)
  resume h b (ok (s, rest)) = process_frames P h (rest ++ b) s
  resume h b (throws e (s, rest)) = throws e (s, rest ++ b)
  resume h b undefined = undefined

  resume-continue :
      (h : ℕ) (b a : List ℕ) (o : Outcome (PeerProtocol P))
      (k : PeerProtocol P → Outcome (Progress P))
      → resume h b (continue P o a k) ≡ continue P o (a ++ b) (λ s. resume h b (k s))
  unfolding resume
  resume-continue h b a (ok s) k = refl
  resume-continue h b a (throws e s) k = refl
  resume-continue h b a undefined k = refl

  frames_whole_append :
      (g : ℕ) (a b : List ℕ) (s : PeerProtocol P)
      → 4 < length a
      → ntohl_at a 0 ≢ 0
      → ntohl_at a 0 + 4 ≤ length a
      → process_frames P (suc g) (a ++ b) s
        ≡ continue P
            (dispatch P (get_or a 4 0) (take (ntohl_at a 0 + 4) a) s)
            (a ++ b)
            (λ s'. process_frames P g (drop (ntohl_at a 0 + 4) a ++ b) s')
  frames_whole_append g a b s x y z =
      let same = ntohl_at-append a b x in
      frames_whole P g (a ++ b) s (omega (arith, length-append a b)) (rw same y)
        (omega (arith, length-append a b, same))
      ∙ rw
          (
            same,
            get_or-append a b 4 0 x,
            take-append (ntohl_at a 0 + 4) a b z,
            drop-append (ntohl_at a 0 + 4) a b z,
          )
          refl

  pub frames-append :
      (f g h : ℕ) (a b : List ℕ) (s : PeerProtocol P)
      → length a < f
      → length a + length b < g
      → length a + length b < h
      → process_frames P g (a ++ b) s ≡ resume h b (process_frames P f a s)
  unfolding resume
  frames-append zero g h a b s l m n = absurd (omega arith)
  frames-append (suc f) zero h a b s l m n = absurd (omega arith)
  frames-append (suc f) (suc g) h a b s l m n = elim (begins a) [
    | short x ↦ rw (frames_short P f a s x) (
        frames_fuel P (suc g) h (a ++ b) s (omega (arith, length-append a b))
          (omega (arith, length-append a b)))
    | partial x y z ↦ rw (frames_partial P f a s x y z) (
        frames_fuel P (suc g) h (a ++ b) s (omega (arith, length-append a b))
          (omega (arith, length-append a b)))
    | keeps_alive x y ↦
        frames_keep_alive P g (a ++ b) s (omega (arith, length-append a b))
          (ntohl_at-append a b x ∙ y)
        ∙ ap (λ r. process_frames P g r s) (drop-append 4 a b (omega arith))
        ∙ frames-append f g h (drop 4 a) b s (omega (arith, length-drop 4 a))
            (omega (arith, length-drop 4 a)) (omega (arith, length-drop 4 a))
        ∙ sym (ap (resume h b) (frames_keep_alive P f a s x y))
    | whole x y z ↦
        frames_whole_append g a b s x y z
        ∙ continue-ext P _ _ _ _ (λ s'.
          frames-append f g h (drop (ntohl_at a 0 + 4) a) b s'
            (omega (arith, length-drop (ntohl_at a 0 + 4) a))
            (omega (arith, length-drop (ntohl_at a 0 + 4) a))
            (omega (arith, length-drop (ntohl_at a 0 + 4) a)))
        ∙ sym (
            resume-continue h b a (dispatch P (get_or a 4 0) (take (ntohl_at a 0 + 4) a) s)
              (process_frames P f (drop (ntohl_at a 0 + 4) a)))
        ∙ sym (ap (resume h b) (frames_whole P f a s x y z))
  ]
