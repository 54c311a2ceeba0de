-- ===== src/Platform.antt =====
-- What the program calls and does not hold itself: BitSet of common/bitset.hpp, the file descriptors
-- of the system, and the memory that an allocation hands out. The definitions that use them take
-- them as a parameter.
use torrent_client.Base.{ℕ, Bool, List}

pub record Platform : Type 1 where
  -- BitSet: its default constructor, bind(bytes), bind(bytes, data), whether there is a bit at an
  -- index, and operator[] read and set to true, which are for a bit that is there
  pub BitSet : Type 0
  pub no_bits : BitSet
  pub bind : ℕ → BitSet → BitSet
  pub bind_data : ℕ → List ℕ → BitSet → BitSet
  pub has : ℕ → BitSet → Bool
  pub test : ℕ → BitSet → Bool
  pub mark : ℕ → BitSet → BitSet
  -- An open file, and pwrite(fd, bytes, count, position): the number that it returns, as a bit
  -- pattern, and the file afterwards.
  pub Fd : Type 0
  pub pwrite : Fd → (ℕ → ℕ) → ℕ → ℕ → ℕ × Fd
  -- What a new array of some size holds, byte by byte.
  pub new_bytes : ℕ → ℕ → ℕ
