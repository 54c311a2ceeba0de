-- ===== src/TorrentFile/InfoHash/Escape.antt =====
-- hexer of torrent_file.cpp against the decoding of a percent-encoded text.
use torrent_client.Base.{
  ℕ, ◌+◌, ◌-◌, ◌*◌, ◌/◌, ◌%◌, ◌≤◌, ◌<◌, ◌≡◌, refl, ap, inl, inr, Bytes, [], ◌∷◌, ◌++◌, true, false,
  ◌==◌, leb, if◌then◌else◌, length, Bool-cases, arith,
}
use native.Mathlib.Nat.{div-add-mod}
use torrent_client.TorrentFile.InfoHash.{hex_digit, is_plain, hexer}

-- What a decoder has read of an escape: nothing, the percent sign, or its first digit too.
pub data Pending : Type 0 where
  outside percent : Pending
  first_digit : ℕ → Pending

abbrev pub digit_value : ℕ → ℕ
digit_value c = if leb c b'9' then c - b'0' else c - b'A' + 10

abbrev pub next_pending : Pending → ℕ → Pending
next_pending outside c = if c == b'%' then percent else outside
next_pending percent c = first_digit (digit_value c)
next_pending (first_digit n) c = outside

abbrev pub decoded : Pending → ℕ → Bytes
decoded outside c = if c == b'%' then [] else c ∷ []
decoded percent c = []
decoded (first_digit n) c = (n * 16 + digit_value c) ∷ []

-- The bytes that a percent-encoded text stands for
abbrev pub unescape : Pending → Bytes → Bytes
unescape pending [] = []
unescape pending (c ∷ cs) = decoded pending c ++ unescape (next_pending pending c) cs

abbrev pub AreBytes : Bytes → Type 0
AreBytes [] = Unit {0}
AreBytes (c ∷ cs) = (c < 256) × AreBytes cs

digit_value-hex_digit : (n : ℕ) → n < 16 → digit_value (hex_digit n) ≡ n
digit_value-hex_digit n h = ground arith

is_plain-ne : (c : ℕ) → is_plain c ≡ true → (c == b'%') ≡ false
unfolding is_plain
is_plain-ne c h = ground arith

-- For bytes below 256: decoding the escapes of a text of hexer gives the bytes again, and the text
-- fits the three characters for each byte that hexer has room for.
pub unescape-hexer :
    (bytes : Bytes)
    → AreBytes bytes
    → (unescape outside (hexer bytes) ≡ bytes) × (length (hexer bytes) ≤ 3 * length bytes)
unfolding hexer
unescape-hexer [] h = (refl, omega arith)
unescape-hexer (c ∷ cs) h =
    let more = unescape-hexer cs h.1 in
    elim (Bool-cases (is_plain c)) [
      | inl plain ↦ rw (plain, is_plain-ne c plain) (rw more.0 refl, omega (arith, more.1))
      | inr escaped ↦
          rw
            (
              escaped,
              digit_value-hex_digit (c / 16) (let small = h.0 in omega arith),
              digit_value-hex_digit (c % 16) (omega arith),
            )
            (rw more.0 (ap (λ b. b ∷ cs) (omega (arith, div-add-mod c 16))), omega (arith, more.1))
    ]
