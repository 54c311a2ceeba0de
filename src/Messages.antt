-- ===== src/Messages.antt =====
-- message_types.hpp: the messages of the peer protocol as the bytes of their packed structs.
pub mod Fields
use torrent_client.Base.{ℕ, ◌/◌, ◌%◌, ◌^◌, ◌+◌, ◌*◌, List, [], ◌∷◌, ◌++◌, drop, get_or}

-- enum MessageType
pub data MessageType : Type 0 where
  choke unchoke interested not_interested have bitfield request piece cancel port : MessageType

abbrev pub code_of : MessageType → ℕ
code_of choke = 0
code_of unchoke = 1
code_of interested = 2
code_of not_interested = 3
code_of have = 4
code_of bitfield = 5
code_of request = 6
code_of piece = 7
code_of cancel = 8
code_of port = 9

abbrev pub num_of_types : ℕ
num_of_types = 10

-- A uint32_t stored behind htonl, the highest byte first.
unfoldable pub htonl_bytes : ℕ → List ℕ
htonl_bytes n = (n / 2 ^ 24 % 256) ∷ (n / 2 ^ 16 % 256) ∷ (n / 2 ^ 8 % 256) ∷ (n % 256) ∷ []

-- A uint32_t stored as it is on a little-endian machine.
unfoldable pub host_bytes : ℕ → List ℕ
host_bytes n = (n % 256) ∷ (n / 2 ^ 8 % 256) ∷ (n / 2 ^ 16 % 256) ∷ (n / 2 ^ 24 % 256) ∷ []

unfoldable pub htons_bytes : ℕ → List ℕ
htons_bytes n = (n / 2 ^ 8 % 256) ∷ (n % 256) ∷ []

-- ntohl of the four bytes at a position
unfoldable pub ntohl_at : List ℕ → ℕ → ℕ
ntohl_at bytes i =
    get_or bytes i 0 * 2 ^ 24
    + get_or bytes (i + 1) 0 * 2 ^ 16
    + get_or bytes (i + 2) 0 * 2 ^ 8
    + get_or bytes (i + 3) 0

-- BaseMessage
unfoldable pub base_message : ℕ → MessageType → List ℕ
unfolding htonl_bytes
base_message length type = htonl_bytes length ++ code_of type ∷ []

-- ChokeMessage, UnchokeMessage, InterestedMessage, NotInterestedMessage
unfoldable pub choke_message : List ℕ
unfolding base_message
choke_message = base_message 1 choke

unfoldable pub unchoke_message : List ℕ
unfolding base_message
unchoke_message = base_message 1 unchoke

unfoldable pub interested_message : List ℕ
unfolding base_message
interested_message = base_message 1 interested

unfoldable pub not_interested_message : List ℕ
unfolding base_message
not_interested_message = base_message 1 not_interested

-- HaveMessage: the index is stored without htonl.
unfoldable pub have_message : ℕ → List ℕ
unfolding base_message host_bytes
have_message index = base_message 5 have ++ host_bytes index

-- BitfieldMessage, without its data
unfoldable pub bitfield_message : ℕ → List ℕ
unfolding base_message
bitfield_message length = base_message length bitfield

unfoldable pub request_message : ℕ → ℕ → ℕ → List ℕ
unfolding base_message htonl_bytes
request_message index offset block_length =
    base_message 13 request
    ++ (htonl_bytes index ++ (htonl_bytes offset ++ htonl_bytes block_length))

-- PieceMessage, without its data
unfoldable pub piece_message : ℕ → ℕ → ℕ → List ℕ
unfolding base_message htonl_bytes
piece_message length index offset =
    base_message length piece ++ (htonl_bytes index ++ htonl_bytes offset)

unfoldable pub cancel_message : ℕ → ℕ → ℕ → List ℕ
unfolding base_message htonl_bytes
cancel_message index offset block_length =
    base_message 13 cancel
    ++ (htonl_bytes index ++ (htonl_bytes offset ++ htonl_bytes block_length))

unfoldable pub port_message : ℕ → List ℕ
unfolding base_message htons_bytes
port_message number = base_message 3 port ++ htons_bytes number
