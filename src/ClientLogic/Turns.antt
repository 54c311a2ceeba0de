-- ===== src/ClientLogic/Turns.antt =====
-- Whole calls of ClientLogic::on_read and ClientLogic::on_write.
use torrent_client.Base.{
  ℕ, zero, suc, ◌+◌, ◌-◌, ◌≤◌, ◌<◌, ◌≡◌, refl, sym, ap, subst, ◌∙◌, inl, inr, List, [], ◌∷◌, ◌++◌,
  ltb, lt→ltb, ge→ltb, ◌==◌, ne→==, Bool-cases, if◌then◌else◌, Outcome, ok, throws, undefined,
  int_thrown, ◌>>=◌, take, length, length-take, get_or, arith,
}
use torrent_client.Platform.{Platform}
use torrent_client.PeerProtocol.{
  PeerProtocol, State, handshaking, acting, protocol_name, has_message, get_message, is_empty,
}
use torrent_client.PeerProtocol.Handlers.{process_message, process_frames, counted, start_from}
use torrent_client.ClientLogic.{
  ClientLogic, after_message, none_processed, left_in_buffer, wait_for_read, wait_for_write,
  receive, receive_reads, read_in, turn_to_write, on_read, on_write, write_messages, write_in,
}
use torrent_client.ClientLogic.Stream.{
  IsIdle, Handles, concat, bind_ok, left_idle, receive_reads-Handles, none_processed-ok,
  some_processed-ok,
}

get_or-take : (n i : ℕ) (xs : List ℕ) (d : ℕ) → i < n → get_or (take n xs) i d ≡ get_or xs i d
get_or-take zero i xs d h = absurd (omega arith)
get_or-take (suc n) i [] d h = refl
get_or-take (suc n) zero (x ∷ xs) d h = refl
get_or-take (suc n) (suc i) (x ∷ xs) d h = get_or-take n i xs d (omega arith)

ok_inj {ℓ} : {A : Type ℓ} {a b : A} → ok a ≡ ok b → a ≡ b
ok_inj e = cc

module _ (P : Platform) where
  counted_nothing : (t : State) (s : PeerProtocol P) → counted P 0 (start_from P t [] s) ≡ ok (s, 0)
  unfolding process_frames
  counted_nothing handshaking s = refl
  counted_nothing acting s = refl

  -- Nothing is in the buffer of a new connection.
  pub start-IsIdle : (c : ClientLogic P) → c.buffer ≡ [] → IsIdle P c
  unfolding process_message
  start-IsIdle c e = rw e (counted_nothing c.protocol.state c.protocol)

  after_message-state :
      (c c' : ClientLogic P) (o : Outcome (PeerProtocol P × ℕ))
      → after_message P c o ≡ ok c'
      → c'.state ≡ c.state
  after_message-state c c' (throws e (s, n)) k = cc
  after_message-state c c' undefined k = cc
  after_message-state c c' (ok (s, n)) k = elim (Bool-cases (n == 0)) [
    | inl t ↦
        sym (ap (λ c. c.state) (none_processed-ok P (record c { protocol = s }) c' (rw t at k)))
    | inr t ↦ sym (
        ap (λ c. c.state)
          (some_processed-ok P (record c { buffer = left_in_buffer P n c.buffer; protocol = s }) c'
            (rw t at k)))
  ]

  receive-state :
      (bytes : List ℕ) (c c' : ClientLogic P) → receive P bytes c ≡ ok c' → c'.state ≡ c.state
  unfolding receive
  receive-state bytes c c' e = elim (Bool-cases (ltb (500000 - length c.buffer) (length bytes))) [
    | inl t ↦ let impossible = rw t at e in cc
    | inr t ↦
        after_message-state (record c { buffer = c.buffer ++ bytes }) c'
          (process_message P (c.buffer ++ bytes) c.protocol) (rw t at e)
  ]

  receive_reads-state :
      (reads : List (List ℕ)) (c c' : ClientLogic P)
      → receive_reads P reads c ≡ ok c'
      → c'.state ≡ c.state
  unfolding receive_reads
  receive_reads-state [] c c' e = cc
  receive_reads-state (bytes ∷ reads) c c' e =
      let (d, e1, e2) = bind_ok (receive P bytes c) (receive_reads P reads) c' e in
      receive_reads-state reads d c' e2 ∙ receive-state bytes c d e1

  abbrev pub IsTurned : ClientLogic P → Type 0
  IsTurned c = c.state ≡ (if has_message P c.protocol then wait_for_write else wait_for_read)

  turned :
      (reads : List (List ℕ)) (c d c' : ClientLogic P)
      → Handles P (concat reads) c d
      → d.state ≡ wait_for_read
      → turn_to_write P d ≡ c'
      → Handles P (concat reads) c c' × IsIdle P c' × IsTurned c'
  unfolding turn_to_write
  turned reads c d c' (n, e, l, left) w t =
      let idle : IsIdle P d =
        rw left (left_idle P n (c.buffer ++ concat reads) c.protocol d.protocol e) in
      subst (λ x. Handles P (concat reads) c x × IsIdle P x × IsTurned x) t
        (elim (Bool-cases (has_message P d.protocol)) [
          | inl h ↦ rw h ((n, e, l, left), idle, rw h refl)
          | inr h ↦ rw h ((n, e, l, left), idle, rw h w)
        ])

  -- Whatever reads the socket gives, and wherever they end: if it is the turn to read, the protocol
  -- waits for more and on_read does not throw, then the protocol has handled the whole stream as one
  -- call of process_message would, the buffer holds the bytes that it left, the protocol waits for
  -- more again, and it is the turn to write exactly when a message waits.
  pub on_read-Handles :
      (reads : List (List ℕ)) (c c' : ClientLogic P)
      → c.state ≡ wait_for_read
      → IsIdle P c
      → on_read P reads c ≡ ok c'
      → Handles P (concat reads) c c' × IsIdle P c' × IsTurned c'
  unfolding on_read
  on_read-Handles reads c c' w i e =
      let (d, e1, e2) =
        bind_ok (receive_reads P reads c) (λ x. ok (turn_to_write P x)) c'
          (sym (ap (λ t. read_in P t reads c) w) ∙ e) in
      turned reads c d c' (receive_reads-Handles P reads c d i e1)
        (receive_reads-state reads c d e1 ∙ w) (ok_inj e2)

  process_message_waits :
      (bytes : List ℕ) (s : PeerProtocol P)
      → s.state ≡ handshaking
      → length bytes < 68
      → process_message P bytes s ≡ ok (s, 0)
  unfolding process_message
  process_message_waits bytes s e l =
      let nothing : length bytes - length bytes ≡ 0 = omega arith in
      ap (λ t. counted P (length bytes) (start_from P t bytes s)) e
      ∙ rw (lt→ltb _ _ l, nothing) refl

  receive_too_short :
      (bytes : List ℕ) (c : ClientLogic P)
      → c.protocol.state ≡ handshaking
      → c.buffer ≡ []
      → length bytes < 68
      → receive P bytes c ≡ none_processed P (record c { buffer = bytes })
  unfolding receive process_message
  receive_too_short bytes c h e l =
      rw (e, ge→ltb 500000 (length bytes) (omega arith))
        (ap (after_message P (record c { buffer = bytes }))
          (process_message_waits bytes c.protocol h l))

  receive_part_of_handshake :
      (k : ℕ) (rest : List ℕ) (c : ClientLogic P)
      → c.protocol.state ≡ handshaking
      → c.buffer ≡ []
      → 48 ≤ length rest
      → 5 < k
      → k < 68
      → let bytes = take k (19 ∷ (protocol_name ++ rest)) in
        receive P bytes c ≡ throws (int_thrown 1) (record c { buffer = bytes })
  receive_part_of_handshake k rest c h e l a b =
      let bytes = take k (19 ∷ (protocol_name ++ rest)) in
      let size : length bytes ≡ k = omega (arith, length-take k (19 ∷ (protocol_name ++ rest))) in
      let fifth : get_or bytes 4 0 ≡ 84 =
        get_or-take k 4 (19 ∷ (protocol_name ++ rest)) 0 (omega arith) in
      receive_too_short bytes c h e (omega arith) ∙ rw (size, lt→ltb 5 k a, fifth) refl

  -- When it is the turn to read, the buffer is empty, the connection waits for the handshake, and
  -- the first read gives the first 6 to 67 bytes of a proper handshake, then on_read throws,
  -- whatever reads would follow: it takes the fifth byte, which is the T of the protocol's name, for
  -- the type of a message.
  pub on_read_part_of_handshake :
      (k : ℕ) (rest : List ℕ) (reads : List (List ℕ)) (c : ClientLogic P)
      → c.state ≡ wait_for_read
      → c.protocol.state ≡ handshaking
      → c.buffer ≡ []
      → 48 ≤ length rest
      → 5 < k
      → k < 68
      → let bytes = take k (19 ∷ (protocol_name ++ rest)) in
        on_read P (bytes ∷ reads) c ≡ throws (int_thrown 1) (record c { buffer = bytes })
  unfolding on_read receive_reads
  on_read_part_of_handshake k rest reads c w h e l a b =
      let bytes = take k (19 ∷ (protocol_name ++ rest)) in
      ap (λ t. read_in P t (bytes ∷ reads) c) w
      ∙ ap (λ o. (o >>= receive_reads P reads) >>= λ c'. ok (turn_to_write P c'))
          (receive_part_of_handshake k rest c h e l a b)

  -- No waiting message is empty.
  abbrev pub AllSome : List (List ℕ) → Type 0
  AllSome [] = Unit {0}
  AllSome (m ∷ ms) = (0 < length m) × AllSome ms

  write_messages-all :
      (n : ℕ) (ms : List (List ℕ)) (s : PeerProtocol P)
      → length ms < n
      → AllSome ms
      → write_messages P n (record s { messages = ms }) ≡ (ms, record s { messages = [] })
  unfolding write_messages get_message
  write_messages-all zero ms s l a = absurd (omega arith)
  write_messages-all (suc n) [] s l a = refl
  write_messages-all (suc n) (m ∷ ms) s l a =
      rw (ne→== (length m) 0 (λ e. omega arith), write_messages-all n ms s (omega arith) a.1) refl

  -- When it is the turn to write and no waiting message is empty, on_write sends every waiting
  -- message, in order, and leaves none; then it is the turn to read, unless nothing was sent.
  pub on_write-all :
      (c : ClientLogic P)
      → c.state ≡ wait_for_write
      → AllSome c.protocol.messages
      → on_write P c ≡ (
        c.protocol.messages,
        record c {
          protocol = record c.protocol { messages = [] };
          state = if is_empty P c.protocol.messages then wait_for_write else wait_for_read;
        },
      )
  unfolding on_write
  on_write-all c w a =
      ap (λ t. write_in P t c) w
      ∙ rw
          (write_messages-all (length c.protocol.messages + 1) c.protocol.messages c.protocol
            (omega arith) a)
          refl
