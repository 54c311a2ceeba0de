-- ===== src/PeerProtocol/Portions.antt =====
-- process_message on the bytes of a connection that come in portions.
use torrent_client.Base.{
  ℕ, ◌+◌, ◌-◌, ◌≤◌, ◌<◌, ◌≡◌, refl, sym, ap, ◌∙◌, List, ◌++◌, inl, inr, Bool-cases, ltb, ltb→ge,
  ge→ltb, Outcome, ok, throws, undefined, drop, length, length-drop, length-append, drop-append,
  arith,
}
use torrent_client.Platform.{Platform}
use torrent_client.PeerProtocol.{PeerProtocol, State, handshaking, acting}
use torrent_client.PeerProtocol.Handlers.{
  Progress, process_frames, process_message, start_from, counted,
}
use torrent_client.PeerProtocol.Framing.{
  frames_fuel, LeavesPart, LeavesPart-drop, frames-LeavesPart,
}
use torrent_client.PeerProtocol.Resuming.{resume, frames-append}
use torrent_client.PeerProtocol.Past.{IsPast, frames-IsPast}

module _ (P : Platform) where
  abbrev pub add_processed : ℕ → Outcome (PeerProtocol P × ℕ) → Outcome (PeerProtocol P × ℕ)
  add_processed n (ok (s, m)) = ok (s, n + m)
  add_processed n (throws e (s, m)) = throws e (s, n + m)
  add_processed n undefined = undefined

  -- After the outcome for a first portion, a call with what it left and a second portion.
  abbrev pub then_portion :
      List ℕ → List ℕ → Outcome (PeerProtocol P × ℕ) → Outcome (PeerProtocol P × ℕ)
  then_portion a b (ok (s, n)) = add_processed n (process_message P (drop n a ++ b) s)
  then_portion a b (throws e (s, n)) = throws e (s, n)
  then_portion a b undefined = undefined

  counted-more :
      (n m : ℕ) (received : List ℕ) (o : Outcome (Progress P))
      → LeavesPart P received o
      → m ≡ n + length received
      → counted P m o ≡ add_processed n (counted P (length received) o)
  counted-more n m received (ok (s, rest)) (k, l, e, i) h =
      ap (λ j. ok (s, j)) (omega (arith, ap length e, length-drop k received))
  counted-more n m received (throws x (s, rest)) (k, l, e) h =
      ap (λ j. throws x (s, j)) (omega (arith, ap length e, length-drop k received))
  counted-more n m received undefined l h = refl

  pub start_acting :
      (received : List ℕ) (s : PeerProtocol P)
      → s.state ≡ acting
      → start_from P s.state received s ≡ process_frames P (length received + 1) received s
  start_acting received s e = rw e refl

  frames-process_message :
      (n m h : ℕ) (bytes : List ℕ) (s : PeerProtocol P)
      → s.state ≡ acting
      → length bytes < h
      → m ≡ n + length bytes
      → counted P m (process_frames P h bytes s) ≡ add_processed n (process_message P bytes s)
  unfolding process_message
  frames-process_message n m h bytes s e l k =
      counted-more n m bytes _ (frames-LeavesPart P h bytes s l) k
      ∙ ap (λ o. add_processed n (counted P (length bytes) o))
          (frames_fuel P h (length bytes + 1) bytes s l (omega arith)
            ∙ sym (start_acting bytes s e))

  -- From an outcome for the first portion, which is processed up to some byte.
  resumed :
      (h : ℕ) (received b : List ℕ) (o : Outcome (Progress P))
      → length received + length b < h
      → LeavesPart P received o
      → IsPast P o
      → counted P (length received + length b) (resume P h b o)
        ≡ then_portion received b (counted P (length received) o)
  unfolding resume IsPast process_message
  resumed h received b (ok (s, rest)) l (n, k, e, i) past =
      frames-process_message (length received - length rest) (length received + length b) h
        (rest ++ b) s past
        (omega (arith, length-append rest b, ap length e, length-drop n received))
        (omega (arith, length-append rest b, ap length e, length-drop n received))
      ∙ ap (λ r. add_processed (length received - length rest) (process_message P (r ++ b) s))
          (e ∙ ap (λ j. drop j received) (omega (arith, ap length e, length-drop n received)))
  resumed h received b (throws x (s, rest)) l (n, k, e) past =
      ap (λ j. throws x (s, j))
        (omega (arith, length-append rest b, ap length e, length-drop n received))
  resumed h received b undefined l k past = refl

  add_none : (o : Outcome (PeerProtocol P × ℕ)) → add_processed 0 o ≡ o
  add_none (ok (s, n)) = ap (λ j. ok (s, j)) (omega arith)
  add_none (throws e (s, n)) = ap (λ j. throws e (s, j)) (omega arith)
  add_none undefined = refl

  -- The loop over both portions, from the byte `n` of the first on.
  frames-then_portion :
      (n : ℕ) (a b : List ℕ) (s : PeerProtocol P)
      → s.state ≡ acting
      → n ≤ length a
      → counted P (length (a ++ b)) (process_frames P (length (a ++ b) + 1) (drop n (a ++ b)) s)
        ≡ then_portion a b (counted P (length a) (process_frames P (length a + 1) (drop n a) s))
  frames-then_portion n a b s e l =
      rw
        (
          length-append a b,
          drop-append n a b l,
          frames-append P (length a + 1) (length a + length b + 1) (length a + length b + 1)
              (drop n a) b s (omega (arith, length-drop n a)) (omega (arith, length-drop n a))
              (omega (arith, length-drop n a)),
        )
        (resumed (length a + length b + 1) a b (process_frames P (length a + 1) (drop n a) s)
          (omega arith)
          (LeavesPart-drop P a n _ l
            (frames-LeavesPart P (length a + 1) (drop n a) s (omega (arith, length-drop n a))))
          (frames-IsPast P (length a + 1) (drop n a) s e))

  start_from-then_portion :
      (t : State) (a b : List ℕ) (s : PeerProtocol P)
      → s.state ≡ t
      → counted P (length (a ++ b)) (start_from P t (a ++ b) s)
        ≡ then_portion a b (counted P (length a) (start_from P t a s))
  unfolding process_message
  start_from-then_portion acting a b s e = frames-then_portion 0 a b s e (omega arith)
  start_from-then_portion handshaking a b s e = elim (Bool-cases (ltb (length a) 68)) [
    | inl t ↦
        let none_left : length a - length a ≡ 0 = omega arith in
        rw (t, none_left, add_none (process_message P (a ++ b) s), e) refl
    | inr t ↦
        rw
          (
            t,
            ge→ltb (length (a ++ b)) 68 (omega (arith, length-append a b, ltb→ge (length a) 68 t)),
          )
          (frames-then_portion 68 a b (record s { state = acting }) refl (ltb→ge _ _ t))
  ]

  -- However the bytes from the peer are split into two portions: a call with both does what a call
  -- with the first does, followed, if it returns, by a call with the bytes that it left and the
  -- second portion; the numbers of processed bytes add up, and an exception is the same one.
  pub process_message_in_portions :
      (a b : List ℕ) (s : PeerProtocol P)
      → process_message P (a ++ b) s ≡ then_portion a b (process_message P a s)
  unfolding process_message
  process_message_in_portions a b s = start_from-then_portion s.state a b s refl
