-- ===== src/PeerProtocol/Leftover.antt =====
-- What process_message leaves of the received bytes.
use torrent_client.Base.{
  ℕ, ◌+◌, ◌-◌, ◌≤◌, ◌<◌, ◌≡◌, ◌⊎◌, refl, sym, ap, ◌∙◌, List, inl, inr, Bool-cases, ltb, ltb→lt,
  ltb→ge, Outcome, ok, throws, undefined, drop, length, length-drop, arith,
}
use torrent_client.Platform.{Platform}
use torrent_client.PeerProtocol.{PeerProtocol, State, handshaking, acting, handshake_size}
use torrent_client.PeerProtocol.Handlers.{Progress, process_message, start_from, counted}
use torrent_client.PeerProtocol.Framing.{
  LeavesPart, LeavesPart-drop, IsIncomplete, frames-LeavesPart,
}
use torrent_client.PeerProtocol.Past.{IsPast, frames-IsPast}

module _ (P : Platform) where
  -- What a call may return: nothing was processed while the handshake is not there, or everything up
  -- to an incomplete message.
  abbrev pub IsProcessed : List ℕ → Outcome (PeerProtocol P × ℕ) → Type 0
  IsProcessed received (ok (s, n)) =
      (n ≤ length received)
      × (((s.state ≡ handshaking) × (n ≡ 0) × (length received < handshake_size))
          ⊎ ((s.state ≡ acting) × IsIncomplete P (drop n received)))
  IsProcessed received (throws e (s, n)) = n ≤ length received
  IsProcessed received undefined = Unit {0}

  counted-IsProcessed :
      (received : List ℕ) (o : Outcome (Progress P))
      → LeavesPart P received o
      → IsPast P o
      → IsProcessed received (counted P (length received) o)
  unfolding IsPast
  counted-IsProcessed received (ok (s, rest)) (n, l, e, i) past =
      let left : drop (length received - length rest) received ≡ rest =
        sym (e ∙ ap (λ j. drop j received) (omega (arith, ap length e, length-drop n received))) in
      (omega arith, inr (past, rw left i))
  counted-IsProcessed received (throws x (s, rest)) (n, l, e) past = omega arith
  counted-IsProcessed received undefined l past = tt

  start_from-IsProcessed :
      (t : State) (received : List ℕ) (s : PeerProtocol P)
      → s.state ≡ t
      → IsProcessed received (counted P (length received) (start_from P t received s))
  start_from-IsProcessed acting received s e =
      counted-IsProcessed received _
        (frames-LeavesPart P (length received + 1) received s (omega arith))
        (frames-IsPast P (length received + 1) received s e)
  start_from-IsProcessed handshaking received s e = elim (Bool-cases (ltb (length received) 68)) [
    | inl t ↦
        let none_processed : length received - length received ≡ 0 = omega arith in
        rw t (omega arith, inl (e, none_processed, ltb→lt _ _ t))
    | inr t ↦ rw t (
        counted-IsProcessed received _
          (LeavesPart-drop P received 68 _ (ltb→ge _ _ t) (
            frames-LeavesPart P (length received + 1) (drop 68 received)
              (record s { state = acting }) (omega (arith, length-drop 68 received))))
          (frames-IsPast P (length received + 1) (drop 68 received) (record s { state = acting })
            refl))
  ]

  pub process_message-IsProcessed :
      (received : List ℕ) (s : PeerProtocol P) → IsProcessed received (process_message P received s)
  unfolding process_message
  process_message-IsProcessed received s = start_from-IsProcessed s.state received s refl
