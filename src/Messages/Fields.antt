-- ===== src/Messages/Fields.antt =====
-- The fields of a message as a reader finds them.
use torrent_client.Base.{
  ℕ, ◌+◌, ◌*◌, ◌/◌, ◌%◌, ◌^◌, ◌<◌, ◌≡◌, refl, List, ◌++◌, arith, u32_mod, length, get_or,
}
use torrent_client.Messages.{ntohl_at, request_message, piece_message, have_message}

digits :
    (n : ℕ)
    → n < u32_mod
    → (n / 2 ^ 24 % 256) * 2 ^ 24
        + (n / 2 ^ 16 % 256) * 2 ^ 16
        + (n / 2 ^ 8 % 256) * 2 ^ 8
        + n % 256
      ≡ n
digits n h = omega arith

-- A request read field by field, whatever follows it: its own length, and the length, the type, the
-- index, the offset and the block length that it was made of, for fields of 32 bits.
pub request_message_fields :
    (index offset block_length : ℕ) (rest : List ℕ)
    → index < u32_mod
    → offset < u32_mod
    → block_length < u32_mod
    → let bytes = request_message index offset block_length ++ rest in
      (length (request_message index offset block_length) ≡ 17)
      × (ntohl_at bytes 0 ≡ 13)
      × (get_or bytes 4 0 ≡ 6)
      × (ntohl_at bytes 5 ≡ index)
      × (ntohl_at bytes 9 ≡ offset)
      × (ntohl_at bytes 13 ≡ block_length)
unfolding request_message ntohl_at
request_message_fields index offset block_length rest a b c =
    (refl, refl, refl, digits index a, digits offset b, digits block_length c)

-- The header of a piece message reads back as the length, the type, the index and the offset that it
-- was made of, whatever follows it, for fields of 32 bits.
pub piece_message_fields :
    (size index offset : ℕ) (rest : List ℕ)
    → size < u32_mod
    → index < u32_mod
    → offset < u32_mod
    → let bytes = piece_message size index offset ++ rest in
      (length (piece_message size index offset) ≡ 13)
      × (ntohl_at bytes 0 ≡ size)
      × (get_or bytes 4 0 ≡ 7)
      × (ntohl_at bytes 5 ≡ index)
      × (ntohl_at bytes 9 ≡ offset)
unfolding piece_message ntohl_at
piece_message_fields size index offset rest a b c =
    (refl, digits size a, refl, digits index b, digits offset c)

-- A have message is read back with the bytes of its index reversed: its constructor stores the index
-- in the order of a little-endian machine, and the reader takes it for network order.
pub have_message_reversed :
    (index : ℕ) (rest : List ℕ)
    → index < u32_mod
    → ntohl_at (have_message index ++ rest) 5
      ≡ (index % 256) * 2 ^ 24
        + (index / 2 ^ 8 % 256) * 2 ^ 16
        + (index / 2 ^ 16 % 256) * 2 ^ 8
        + index / 2 ^ 24
unfolding have_message ntohl_at
have_message_reversed index rest a = omega arith
