-- ===== src/Examples/Platforms.antt =====
-- A platform in memory: bits and files as functions.
use torrent_client.Base.{
  ℕ, Bool, true, false, ◌||◌, ◌&&◌, ◌==◌, ltb, leb, ◌+◌, ◌-◌, ◌/◌, ◌%◌, ◌^◌, get_or, if◌then◌else◌,
}
use torrent_client.Platform.{Platform}

-- pwrite writes everything; bit 0 of a bitfield is the highest bit of its first byte.
abbrev pub in_memory : Platform
in_memory = record {
  BitSet = ℕ → Bool;
  no_bits = λ i. false;
  bind = λ n b. b;
  bind_data = λ n bytes b i. (get_or bytes (i / 8) 0 / 2 ^ (7 - i % 8)) % 2 == 1;
  has = λ i b. true;
  test = λ i b. b i;
  mark = λ i b j. (j == i) || b j;
  Fd = ℕ → ℕ;
  pwrite = λ fd source n at. (n, λ i. if leb at i && ltb i (at + n) then source (i - at) else fd i);
  new_bytes = λ n i. 0;
}
