-- ===== src/SubStrings.antt =====
-- common/sub_string.hpp, which is not part of the repository: a place in a text, as a token of the
-- parser keeps it. The definitions that use it take it as a parameter.
use torrent_client.Base.{ℕ, Bytes}

pub record SubStrings : Type 1 where
  pub SubString : Type 0
  -- set(from, to), and the place that it keeps
  pub set : ℕ → ℕ → SubString
  pub start : SubString → ℕ
  pub length : SubString → ℕ
  -- the bytes of a text at the place, and `count` of them from an offset in it on
  pub str : SubString → Bytes → Bytes
  pub substr : SubString → Bytes → ℕ → ℕ → Bytes
