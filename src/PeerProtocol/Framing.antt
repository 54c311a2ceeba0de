-- ===== src/PeerProtocol/Framing.antt =====
-- The loop of process_message, by how the received bytes begin: its rounds, fuel and leftover.
use torrent_client.Base.{
  ℕ, zero, suc, ◌+◌, ◌≤◌, ◌<◌, ◌≡◌, ◌≢◌, refl, sym, ◌∙◌, ◌⊎◌, inl, inr, List, arith, Bool-cases,
  ltb, ltb→lt, ltb→ge, lt→ltb, ge→ltb, ◌==◌, ==_iff, ne→==, ==→ne, Outcome, ok, throws, undefined,
  get_or, take, drop, length, length-drop, drop-drop,
}
use torrent_client.Platform.{Platform}
use torrent_client.Messages.{ntohl_at}
use torrent_client.PeerProtocol.{PeerProtocol}
use torrent_client.PeerProtocol.Handlers.{Progress, continue, dispatch, process_frames}

-- How the received bytes begin.
pub data Begins (rest : List ℕ) : Type 0 where
  short : length rest ≤ 4 → Begins rest
  keeps_alive : 4 < length rest → ntohl_at rest 0 ≡ 0 → Begins rest
  partial : 4 < length rest → ntohl_at rest 0 ≢ 0 → length rest < ntohl_at rest 0 + 4 → Begins rest
  whole : 4 < length rest → ntohl_at rest 0 ≢ 0 → ntohl_at rest 0 + 4 ≤ length rest → Begins rest

pub begins : (rest : List ℕ) → Begins rest
begins rest = elim (Bool-cases (ltb 4 (length rest))) [
  | inr a ↦ short (ltb→ge _ _ a)
  | inl a ↦ elim (Bool-cases (ntohl_at rest 0 == 0)) [
    | inl b ↦ keeps_alive (ltb→lt _ _ a) ((==_iff _ _).0 b)
    | inr b ↦ elim (Bool-cases (ltb (length rest) (ntohl_at rest 0 + 4))) [
      | inl c ↦ partial (ltb→lt _ _ a) (==→ne _ _ b) (ltb→lt _ _ c)
      | inr c ↦ whole (ltb→lt _ _ a) (==→ne _ _ b) (ltb→ge _ _ c)
    ]
  ]
]

module _ (P : Platform) where
  module _ (fuel : ℕ) (rest : List ℕ) (s : PeerProtocol P) where
    pub frames_short : length rest ≤ 4 → process_frames P (suc fuel) rest s ≡ ok (s, rest)
    unfolding process_frames
    frames_short a = rw (ge→ltb _ _ a)

    pub frames_keep_alive :
        4 < length rest
        → ntohl_at rest 0 ≡ 0
        → process_frames P (suc fuel) rest s ≡ process_frames P fuel (drop 4 rest) s
    unfolding process_frames
    frames_keep_alive a b = rw (lt→ltb _ _ a, b)

    pub frames_partial :
        4 < length rest
        → ntohl_at rest 0 ≢ 0
        → length rest < ntohl_at rest 0 + 4
        → process_frames P (suc fuel) rest s ≡ ok (s, rest)
    unfolding process_frames
    frames_partial a b c = rw (lt→ltb _ _ a, ne→== _ _ b, lt→ltb _ _ c)

    pub frames_whole :
        4 < length rest
        → ntohl_at rest 0 ≢ 0
        → ntohl_at rest 0 + 4 ≤ length rest
        → process_frames P (suc fuel) rest s
          ≡ continue P
              (dispatch P (get_or rest 4 0) (take (ntohl_at rest 0 + 4) rest) s)
              rest
              (process_frames P fuel (drop (ntohl_at rest 0 + 4) rest))
    unfolding process_frames
    frames_whole a b c = rw (lt→ltb _ _ a, ne→== _ _ b, ge→ltb _ _ c)

  pub continue-ext :
      (o : Outcome (PeerProtocol P)) (rest : List ℕ) (k l : PeerProtocol P → Outcome (Progress P))
      → ((s : PeerProtocol P) → k s ≡ l s)
      → continue P o rest k ≡ continue P o rest l
  continue-ext (ok s) rest k l e = e s
  continue-ext (throws x s) rest k l e = refl
  continue-ext undefined rest k l e = refl

  -- Any fuel above the number of bytes gives the same outcome.
  pub frames_fuel :
      (f g : ℕ) (rest : List ℕ) (s : PeerProtocol P)
      → length rest < f
      → length rest < g
      → process_frames P f rest s ≡ process_frames P g rest s
  frames_fuel zero g rest s l m = absurd (omega arith)
  frames_fuel (suc f) zero rest s l m = absurd (omega arith)
  frames_fuel (suc f) (suc g) rest s l m = elim (begins rest) [
    | short a ↦ frames_short f rest s a ∙ sym (frames_short g rest s a)
    | keeps_alive a b ↦
        frames_keep_alive f rest s a b
        ∙ frames_fuel f g (drop 4 rest) s (omega (arith, length-drop 4 rest))
            (omega (arith, length-drop 4 rest))
        ∙ sym (frames_keep_alive g rest s a b)
    | partial a b c ↦ frames_partial f rest s a b c ∙ sym (frames_partial g rest s a b c)
    | whole a b c ↦
        let shorter = length-drop (ntohl_at rest 0 + 4) rest in
        frames_whole f rest s a b c
        ∙ continue-ext _ rest _ _ (λ s'.
          frames_fuel f g (drop (ntohl_at rest 0 + 4) rest) s' (omega (arith, shorter))
            (omega (arith, shorter)))
        ∙ sym (frames_whole g rest s a b c)
  ]

  -- What is left is too short for the length of a message, or for the message that it announces.
  abbrev pub IsIncomplete : List ℕ → Type 0
  IsIncomplete rest =
      (length rest ≤ 4) ⊎ ((ntohl_at rest 0 ≢ 0) × (length rest < ntohl_at rest 0 + 4))

  -- After a run of the loop: a part of the bytes was processed, up to an incomplete message.
  abbrev pub LeavesPart : List ℕ → Outcome (Progress P) → Type 0
  LeavesPart received (ok (s, rest)) =
      (n : ℕ) × (n ≤ length received) × (rest ≡ drop n received) × IsIncomplete rest
  LeavesPart received (throws e (s, rest)) =
      (n : ℕ) × (n ≤ length received) × (rest ≡ drop n received)
  LeavesPart received undefined = Unit {0}

  pub LeavesPart-drop :
      (received : List ℕ) (m : ℕ) (o : Outcome (Progress P))
      → m ≤ length received
      → LeavesPart (drop m received) o
      → LeavesPart received o
  LeavesPart-drop received m (ok (s, rest)) l (n, h, e, i) =
      (m + n, omega (arith, length-drop m received), e ∙ drop-drop n m received, i)
  LeavesPart-drop received m (throws x (s, rest)) l (n, h, e) =
      (m + n, omega (arith, length-drop m received), e ∙ drop-drop n m received)
  LeavesPart-drop received m undefined l h = tt

  LeavesPart-continue :
      (o : Outcome (PeerProtocol P)) (received : List ℕ) (k : PeerProtocol P → Outcome (Progress P))
      → ((s : PeerProtocol P) → LeavesPart received (k s))
      → LeavesPart received (continue P o received k)
  LeavesPart-continue (ok s) received k h = h s
  LeavesPart-continue (throws x s) received k h = (0, omega arith, refl)
  LeavesPart-continue undefined received k h = tt

  pub frames-LeavesPart :
      (fuel : ℕ) (received : List ℕ) (s : PeerProtocol P)
      → length received < fuel
      → LeavesPart received (process_frames P fuel received s)
  frames-LeavesPart zero received s l = absurd (omega arith)
  frames-LeavesPart (suc fuel) received s l = elim (begins received) [
    | short a ↦ rw (frames_short fuel received s a) (0, omega arith, refl, inl a)
    | keeps_alive a b ↦ rw (frames_keep_alive fuel received s a b) (
        LeavesPart-drop received 4 _ (omega arith)
          (frames-LeavesPart fuel (drop 4 received) s (omega (arith, length-drop 4 received))))
    | partial a b c ↦ rw (frames_partial fuel received s a b c) (0, omega arith, refl, inr (b, c))
    | whole a b c ↦ rw (frames_whole fuel received s a b c) (
        LeavesPart-continue _ received _ λ s'.
          LeavesPart-drop received (ntohl_at received 0 + 4) _ c (
            frames-LeavesPart fuel (drop (ntohl_at received 0 + 4) received) s'
              (omega (arith, length-drop (ntohl_at received 0 + 4) received))))
  ]
