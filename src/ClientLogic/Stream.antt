-- ===== src/ClientLogic/Stream.antt =====
-- The loop of ClientLogic::on_read over the stream of bytes, read by read.
use torrent_client.Base.{
  ℕ, zero, suc, ◌+◌, ◌-◌, ◌≤◌, ◌≡◌, refl, sym, ap, subst, ◌∙◌, inl, inr, List, [], ◌∷◌, ◌++◌,
  append_assoc, append-nil, Bool, true, false, ◌&&◌, ltb, ltb→ge, ◌==◌, ==_iff, Bool-cases,
  if◌then◌else◌, Exception, Outcome, ok, throws, undefined, int_thrown, ◌>>=◌, get_or, drop, length,
  length-append, length-drop, drop-append, drop-drop, arith,
}
use torrent_client.Platform.{Platform}
use torrent_client.PeerProtocol.{PeerProtocol}
use torrent_client.PeerProtocol.Handlers.{process_message}
use torrent_client.PeerProtocol.Portions.{process_message_in_portions, add_processed}
use torrent_client.PeerProtocol.Leftover.{IsProcessed, process_message-IsProcessed}
use torrent_client.ClientLogic.{
  ClientLogic, receive, receive_reads, after_message, none_processed, some_processed,
  left_in_buffer,
}

-- The bytes of all reads.
abbrev pub concat : List (List ℕ) → List ℕ
concat [] = []
concat (bytes ∷ reads) = bytes ++ concat reads

drop_all : (n : ℕ) (xs : List ℕ) → length xs ≤ n → drop n xs ≡ []
drop_all zero [] h = refl
drop_all (suc n) [] h = refl
drop_all zero (x ∷ xs) h = absurd (omega arith)
drop_all (suc n) (x ∷ xs) h = drop_all n xs (omega arith)

not_thrown {ℓ} :
    {A : Type ℓ} (t : Bool) (e : Exception) (a b : A) (o : Outcome A)
    → (if t then throws e a else o) ≡ ok b
    → o ≡ ok b
not_thrown true e a b o h = cc
not_thrown false e a b o h = h

pub bind_ok {ℓ} :
    {A : Type ℓ} (o : Outcome A) (f : A → Outcome A) (b : A)
    → (o >>= f) ≡ ok b
    → (a : A) × (o ≡ ok a) × (f a ≡ ok b)
bind_ok (ok a) f b h = (a, refl, h)
bind_ok (throws e a) f b h = cc
bind_ok undefined f b h = cc

module _ (P : Platform) where
  -- The protocol has seen everything in the buffer and waits for more.
  abbrev pub IsIdle : ClientLogic P → Type 0
  IsIdle c = process_message P c.buffer c.protocol ≡ ok (c.protocol, 0)

  -- From one connection to another, the protocol handled some bytes, and the buffer holds the rest.
  abbrev pub Handles : List ℕ → ClientLogic P → ClientLogic P → Type 0
  Handles bytes c c' =
      (n : ℕ) × (process_message P (c.buffer ++ bytes) c.protocol ≡ ok (c'.protocol, n))
      × (n ≤ length (c.buffer ++ bytes))
      × (c'.buffer ≡ drop n (c.buffer ++ bytes))

  pub none_processed-ok : (c c' : ClientLogic P) → none_processed P c ≡ ok c' → c ≡ c'
  none_processed-ok c c' e =
      let kept : ok c ≡ ok c' = not_thrown (length c.buffer == 500000) (int_thrown 1) c c' (ok c) (
        not_thrown (ltb 5 (length c.buffer) && ltb 8 (get_or c.buffer 4 0)) (int_thrown 1) c c' _
          e) in
      cc

  pub some_processed-ok : (c c' : ClientLogic P) → some_processed P c ≡ ok c' → c ≡ c'
  some_processed-ok c c' e =
      let kept : ok c ≡ ok c' =
        not_thrown (length c.buffer == 500000) (int_thrown 1) c c' (ok c) e in
      cc

  left_in_buffer-drop :
      (n : ℕ) (bytes : List ℕ) → n ≤ length bytes → left_in_buffer P n bytes ≡ drop n bytes
  left_in_buffer-drop n bytes h = elim (Bool-cases (ltb n (length bytes))) [
    | inl t ↦ rw t refl
    | inr t ↦ rw t (sym (drop_all n bytes (ltb→ge _ _ t)))
  ]

  after_message-Handles :
      (c c' : ClientLogic P) (b : List ℕ) (o : Outcome (PeerProtocol P × ℕ))
      → IsProcessed P b o
      → after_message P (record c { buffer = b }) o ≡ ok c'
      → (n : ℕ) × (o ≡ ok (c'.protocol, n)) × (n ≤ length b) × (c'.buffer ≡ drop n b)
  after_message-Handles c c' b (throws e (s, n)) h k = cc
  after_message-Handles c c' b undefined h k = cc
  after_message-Handles c c' b (ok (s, n)) (l, _) k = elim (Bool-cases (n == 0)) [
    | inl t ↦
        let same = none_processed-ok (record c { buffer = b; protocol = s }) c' (rw t at k) in
        (
          n,
          ap (λ c. ok (c.protocol, n)) same,
          l,
          sym (ap (λ c. c.buffer) same) ∙ rw ((==_iff n 0).0 t) refl,
        )
    | inr t ↦
        let same =
          some_processed-ok (record c { buffer = left_in_buffer P n b; protocol = s }) c'
            (rw t at k) in
        (
          n,
          ap (λ c. ok (c.protocol, n)) same,
          l,
          sym (ap (λ c. c.buffer) same) ∙ left_in_buffer-drop n b l,
        )
  ]

  receive-Handles :
      (bytes : List ℕ) (c c' : ClientLogic P) → receive P bytes c ≡ ok c' → Handles bytes c c'
  unfolding receive
  receive-Handles bytes c c' e = elim (Bool-cases (ltb (500000 - length c.buffer) (length bytes))) [
    | inl t ↦ let impossible = rw t at e in cc
    | inr t ↦
        after_message-Handles c c' (c.buffer ++ bytes)
          (process_message P (c.buffer ++ bytes) c.protocol)
          (process_message-IsProcessed P (c.buffer ++ bytes) c.protocol) (rw t at e)
  ]

  added_nothing :
      (n : ℕ) (s' : PeerProtocol P) (o : Outcome (PeerProtocol P × ℕ))
      → ok (s', n) ≡ add_processed P n o
      → o ≡ ok (s', 0)
  added_nothing n s' (ok (t, m)) e =
      let same : s' ≡ t = cc in
      let sum : n ≡ n + m = cc in
      ap (λ x. ok (x, m)) (sym same) ∙ ap (λ j. ok (s', j)) (omega arith)
  added_nothing n s' (throws x (t, m)) e = cc
  added_nothing n s' undefined e = cc

  -- After a message the rest waits.
  pub left_idle :
      (n : ℕ) (b : List ℕ) (s s' : PeerProtocol P)
      → process_message P b s ≡ ok (s', n)
      → process_message P (drop n b) s' ≡ ok (s', 0)
  left_idle n b s s' e =
      let again = process_message_in_portions P b [] s in
      let both : ok (s', n) ≡ add_processed P n (process_message P (drop n b) s') =
        rw (append-nil b, e, append-nil (drop n b)) at again in
      added_nothing n s' _ both

  Handles-append :
      (a b : List ℕ) (c d c' : ClientLogic P)
      → Handles a c d
      → Handles b d c'
      → Handles (a ++ b) c c'
  Handles-append a b c d c' (n, e, l, left) (m, e', l', left') =
      let joined : c.buffer ++ (a ++ b) ≡ (c.buffer ++ a) ++ b = sym (append_assoc c.buffer a b) in
      let dropped : d.buffer ++ b ≡ drop n ((c.buffer ++ a) ++ b) =
        rw (left, drop-append n (c.buffer ++ a) b l) refl in
      (
        n + m,
        rw (joined, process_message_in_portions P (c.buffer ++ a) b c.protocol, e)
            (ap (λ r. add_processed P n (process_message P (r ++ b) d.protocol)) (sym left)
              ∙ ap (add_processed P n) e'),
        omega (
          arith,
          ap length joined,
          ap length dropped,
          length-drop n ((c.buffer ++ a) ++ b),
          length-append (c.buffer ++ a) b,
        ),
        rw joined (left' ∙ ap (drop m) dropped ∙ drop-drop m n ((c.buffer ++ a) ++ b)),
      )

  pub receive_reads-Handles :
      (reads : List (List ℕ)) (c c' : ClientLogic P)
      → IsIdle c
      → receive_reads P reads c ≡ ok c'
      → Handles (concat reads) c c'
  unfolding receive_reads
  receive_reads-Handles [] c c' i e =
      let same : c ≡ c' = cc in
      subst (Handles [] c) same
        (0, rw (append-nil c.buffer) i, omega arith, sym (append-nil c.buffer))
  receive_reads-Handles (bytes ∷ reads) c c' i e =
      let (d, e1, e2) = bind_ok (receive P bytes c) (receive_reads P reads) c' e in
      let (n, processed, l, left) = receive-Handles bytes c d e1 in
      let idle : IsIdle d =
        rw left (left_idle n (c.buffer ++ bytes) c.protocol d.protocol processed) in
      Handles-append bytes (concat reads) c d c' (n, processed, l, left)
        (receive_reads-Handles reads d c' idle e2)
