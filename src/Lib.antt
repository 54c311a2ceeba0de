-- ===== src/Lib.antt =====
-- torrent_client: a BitTorrent client in C++. This library models the way from a torrent file and the
-- answer of a tracker to the peers, and from the bytes that a peer sends to the bytes that are written
-- to the files of a torrent.
--
-- The program and its model:
--   BeParser (bedecoder/be_parser.cpp) cuts a bencoded text into tokens; module BeParser.
--   TokenListProcessor (token_list_processor.hpp) hands the tokens to the functions that fill an object;
--   module TokenListProcessor. TorrentFile and TrackerResponse derive from it.
--   TorrentFile (torrent_file.cpp): module TorrentFile has the data and fill_piece_offsets,
--   TorrentFile.Reading the fill_* functions, with those of the info dictionary in
--   TorrentFile.Reading.Info, TorrentFile.InfoHash the hash of that dictionary, and TorrentFile.Loading
--   the constructor.
--   TrackerResponse (tracker_response.cpp): module TrackerResponse has the data and the peers,
--   TrackerResponse.Filling the fill_* functions and the constructor.
--   DownloadManager (download_manager.cpp) makes the address of the first request to a tracker; module
--   DownloadManager. TrackerConnection (init_http_request.cpp) sends the request and turns the answer
--   into clients; module TrackerConnection. main.cpp makes tasks of the events, and hands them to the
--   sockets; module Main, and Main.Start has what main does before it waits for events.
--   PieceList (piece_list.cpp) hands out the indices of pieces to the connections and takes them back;
--   module PieceList. One call is one step, since the code holds a lock in it; PieceList.Handout has
--   the calls of all clients as a relation.
--   PeerProtocol (peer_protocol.cpp) is one connection: process_message cuts the received bytes into
--   messages and runs a handler for each; the answers wait in a list of messages. Module PeerProtocol
--   has the state and what the connection sends, PeerProtocol.Handlers the handlers and the loop. The
--   list of pieces and the files, which all connections share by reference, are fields of the state: a
--   handler gets them as they are at the call, and leaves them as they are after it.
--   ClientLogic (client_logic.cpp) keeps the bytes of a connection that process_message left for the
--   next read, and whose turn it is, to read or to write; module ClientLogic.
--   Swarm puts them together: all connections of the program, as main.cpp and the tasks of its pool run
--   them, with the files and the list of pieces that they share. One call of process_message is one step:
--   what two calls do at the same time is not interleaved. What an honest peer may send is stated in
--   PeerProtocol.Content; Swarm.Exclusive is about peers of any kind, with PeerProtocol.Keeping for one
--   connection and Swarm.Owning for the list of pieces. A connection is closed by on_close and the
--   destructor of its PeerProtocol (Swarm.closed), also after an exception.
--   ActiveSockets (active_sockets.cpp) is the set of peers with a connection; module ActiveSockets.
--   Messages has the packed structs of message_types.hpp as lists of bytes.
--   Piece (piece.cpp) collects the blocks of one piece: a heap array and a std::set of ranges; module
--   Piece, with the ranges in Piece.Overlap and the set in Piece.BlockSet.
--   Files and File (files.cpp) write a complete piece to the files that it has bytes of; module Files.
--   The directories and files that their constructors make are in Files.Opening.
--
-- Conventions. A byte and an integer are a native number; arithmetic on uint64_t and int64_t has its
-- wrap-around written out (add64, sub64, mul64), and -1 in an int64_t is the bit pattern 2^64 - 1
-- (minus_one). An exception is a value with the state that the call leaves (Outcome: ok, throws);
-- what C++ leaves undefined, such as memory out of bounds, a division by 0 and an exhausted stack, is the outcome
-- `undefined`. A new array holds whatever the memory held, which is an argument. Undefined is also a message from
-- a peer that is too short for its fields: the code reads on behind it, in the next message or in what
-- earlier reads left in the buffer. And so is a bit of a peer that BitSet does not have; which bits it has is
-- part of the parameter (has). The bits of a File are always there: it binds at least one for each of its
-- pieces.
--
-- What a socket reads is an argument of ClientLogic.on_read: the bytes of each read until one gives none.
-- A read that fails with a negative count is not modelled.
--
-- An object whose constructor throws does not exist: what fills one ends with the object and the number
-- of the next token, or with an exception and no more (Filled). The number of a token is not wrapped
-- around at 2^64, since a read behind the tokens is undefined long before. A std::string is the list of
-- its bytes; a message that is put together with a path, with strerror or with the name of a class
-- stands without that part. The number of digits that calculate_info_sha1 takes from log10 is the exact
-- one, which it is for every length of less than 10^15.
--
-- Parameters: Platform has BitSet of common/bitset.hpp, pwrite with its file descriptor, and the bytes of
-- a new array; SubStrings is SubString of common/sub_string.hpp; FileSystem has stat, mkdir and open;
-- Sockets has the sockets with their poller; inet_ntop, IpAddr, Url and SHA1 are functions. They are code
-- outside the repository or the system. Where a theorem relies on a law of one of them, the law is a
-- hypothesis.
--
-- Fuel. The loops of the parser have one more round than the text has bytes, since each value takes at
-- least one byte (BeParser.Progress). The loops over tokens have one more round than there are tokens,
-- and each round goes on by a token (TokenListProcessor.Progress, TorrentFile.Reading.Progress). The
-- loop of TrackerConnection::on_read has one round more than the buffer has bytes, and that of
-- create_absolute_path one more than the path. The loop of process_message has one more round than there are
-- bytes, and each round takes at least four (PeerProtocol.Framing). The search for a file has one more
-- call than there are files, since a call on more than one file goes on with fewer (Files.Search). The loop
-- of create_request has one more round than the piece has whole blocks, and that of on_write one more
-- than there are messages.
--
-- Not modelled: threads and timers, what is inside sockets and the poller, the handlers that only
-- print, and output for debugging (print, type_to_string, get_http_url).
pub mod Base
pub mod Piece
pub mod PieceList
pub mod TorrentFile
pub mod BeParser
pub mod SubStrings
pub mod TokenListProcessor
pub mod TrackerResponse
pub mod DownloadManager
pub mod TrackerConnection
pub mod Main
pub mod Platform
pub mod Files
pub mod Messages
pub mod PeerProtocol
pub mod ClientLogic
pub mod Swarm
pub mod ActiveSockets
pub mod Examples
