-- ===== src/ActiveSockets/Membership.antt =====
-- Which peers a set has after a call, and how many.
use torrent_client.Base.{
  ◌+◌, ◌≡◌, refl, ◌∙◌, inl, inr, [], ◌∷◌, true, false, ◌||◌, ◌&&◌, not, Bool-cases, if◌then◌else◌,
  length, arith,
}
use torrent_client.ActiveSockets.{
  LightPeerInfo, ActiveSockets, is_same, has, without, add, remove, size,
}

-- No peer stands twice.
abbrev pub IsDistinct : ActiveSockets → Type 0
IsDistinct [] = Unit {0}
IsDistinct (p ∷ s) = (has p s ≡ false) × IsDistinct s

same-has : (p q : LightPeerInfo) (s : ActiveSockets) → is_same p q ≡ true → has q s ≡ has p s
same-has p q [] h = refl
same-has p q (x ∷ s) h = ground (arith, same-has p q s h)

has-without :
    (p q : LightPeerInfo) (s : ActiveSockets)
    → IsDistinct s
    → has q (without p s) ≡ (has q s && not (is_same p q))
unfolding without
has-without p q [] d = refl
has-without p q (x ∷ s) d = elim (Bool-cases (is_same x p)) [
  | inl t ↦ rw t (ground (arith, same-has x q s, d.0))
  | inr t ↦ rw t (ground (arith, has-without p q s d.1))
]

size-without :
    (p : LightPeerInfo) (s : ActiveSockets)
    → length s ≡ length (without p s) + (if has p s then 1 else 0)
unfolding without
size-without p [] = refl
size-without p (x ∷ s) = elim (Bool-cases (is_same x p)) [
  | inl t ↦ rw t (omega arith)
  | inr t ↦ rw t (omega (arith, size-without p s))
]

without-IsDistinct :
    (p : LightPeerInfo) (s : ActiveSockets) → IsDistinct s → IsDistinct (without p s)
unfolding without
without-IsDistinct p [] d = tt
without-IsDistinct p (x ∷ s) d = elim (Bool-cases (is_same x p)) [
  | inl t ↦ rw t d.1
  | inr t ↦ rw t (has-without p x s d.1 ∙ rw d.0 refl, without-IsDistinct p s d.1)
]

-- For a set in which no peer stands twice: after add it has its old peers and the new one, no peer
-- stands twice, the peer is reported as new exactly when it was not there, and only then the size
-- grows by one.
pub add_lem :
    (p q : LightPeerInfo) (s : ActiveSockets)
    → IsDistinct s
    → (has q (add p s).1 ≡ (has q s || is_same p q))
      × ((add p s).0 ≡ not (has p s))
      × (size (add p s).1 ≡ size s + (if (add p s).0 then 1 else 0))
      × IsDistinct (add p s).1
unfolding add size
add_lem p q s d = elim (Bool-cases (has p s)) [
  | inl t ↦ rw t (ground (arith, same-has p q s), refl, omega arith, d)
  | inr t ↦ rw t (ground arith, refl, omega arith, (t, d))
]

-- For a set in which no peer stands twice: after remove it has its other peers and no more, no peer
-- stands twice, the peer is reported as removed exactly when it was there, and only then the size
-- gets less by one.
pub remove_lem :
    (p q : LightPeerInfo) (s : ActiveSockets)
    → IsDistinct s
    → (has q (remove p s).1 ≡ (has q s && not (is_same p q)))
      × ((remove p s).0 ≡ has p s)
      × (size s ≡ size (remove p s).1 + (if (remove p s).0 then 1 else 0))
      × IsDistinct (remove p s).1
unfolding remove size
remove_lem p q s d = (has-without p q s d, refl, size-without p s, without-IsDistinct p s d)
