-- ===== src/Lib.antt =====
-- The TCP implementation of the sponge library (libsponge/): a sender and a receiver of reliable byte
-- streams, the connection that joins them, and the formats on the wire.
--
-- The parts, from the bottom up, and where each is modelled:
-- - ByteStream: libsponge/byte_stream.{hh,cc}, a bounded buffer with an end and an error flag. Both the
--   output of the reassembler and the input of the sender are one.
-- - Wrapping: libsponge/wrapping_integers.{hh,cc}, 32-bit sequence numbers: `wrap` and `unwrap`.
-- - Reassembler: libsponge/stream_reassembler.{hh,cc}. `Chunk` is an entry of `_unassembledBuffer`,
--   `scan` the loop of `push_unassembledString`, and `accept`, `deliver` and `finish` the parts of
--   `push_substring` that its tests lead to.
-- - Segment: libsponge/tcp_helpers/tcp_header.{hh,cc} and tcp_segment.{hh,cc}, in memory and
--   (Segment.Wire) as bytes, over Parser, libsponge/util/parser.{hh,cc}, and Checksum, the
--   `InternetChecksum` of libsponge/util/util.{hh,cc}.
-- - Receiver: libsponge/tcp_receiver.{hh,cc}. It unwraps the number of a segment and pushes its payload
--   into the reassembler.
-- - Sender: libsponge/tcp_sender.{hh,cc}. `fill_window` reads its byte stream into segments, which
--   `segments_out` queues and `segments_outgoing` keeps until `ack_received` drops them; `tick` sends
--   the oldest one again.
-- - Connection: libsponge/tcp_connection.{hh,cc} with libsponge/tcp_helpers/tcp_config.hh. `phase` is
--   the chain of conditions of `segment_received`, and `handle` what its branches do.
-- - TcpState: libsponge/tcp_helpers/tcp_state.{hh,cc}, a connection summarised.
-- - Ipv4: libsponge/tcp_helpers/ipv4_header.{hh,cc} and (Ipv4.Datagram) ipv4_datagram.{hh,cc}; TcpOverIp:
--   libsponge/tcp_helpers/tcp_over_ip.{hh,cc}, segments in datagrams and back.
-- - TcpOverIp.Tun and TcpOverUdp: libsponge/tcp_helpers/tuntap_adapter.hh, fd_adapter.{hh,cc} and
--   lossy_fd_adapter.hh, the adapters that carry segments.
-- - Buffer: libsponge/util/buffer.{hh,cc}; FileDescriptor: libsponge/util/file_descriptor.{hh,cc};
--   EventLoop: libsponge/util/eventloop.{hh,cc}, one round of which calls the callbacks of its rules.
-- - SpongeSocket: libsponge/tcp_helpers/tcp_sponge_socket.cc, the four rules between a connection, its
--   application and its adapter, and (SpongeSocket.Loop) the loop that serves them. An `Environment` is
--   the adapter, the kernel and the application, a `World` that and the socket; the kernel is told
--   whether the socket has shut its pipe to the application for writing. StreamCopy:
--   apps/bidirectional_stream_copy.cc, the rules of a program that copies both ways; `Pipe` is one way,
--   and StreamCopy.Loop is the two with the event loop.
-- - Options: apps/tcp_ipv4.cc and tcp_udp.cc, how they read their arguments.
-- - Benchmark: apps/tcp_benchmark.cc, two connections that exchange segments in one program.
-- - Network: a sender and a receiver with a network between them that loses, repeats and reorders
--   segments, as a step relation; Duplex: two connections with such a network, each of which sends and
--   receives. They have no counterpart in the code.
-- - Examples: runs at concrete values. Base: shared notation and lemmas.
--
-- An object is a record of its members, and an operation a function from the state to the state after
-- it. A byte is a number. Members of 64 and of 32 bits are natural numbers, with the wrap of each sum
-- and difference written out (`add64`, `sub64`, `add32`, `sub32`), unless it cannot happen.
-- `std::list`, `std::queue` and `std::map` are lists, the map in the order of its keys. Where segments
-- and datagrams hold a `Buffer`, it is the list of its bytes. An exception is `none`, and what the
-- kernel answers is an argument.
--
-- The stream of a connection is given by a function `S` from positions to bytes and its length `N`;
-- `slice S k n` is the stretch of `n` bytes from `k` on. `N + 1 < 2 ^ 32`, since the receiver misreads
-- numbers beyond that. Loops go along a list, but for that of `fill_window`, which has the window plus
-- one as fuel: every round that does not leave it puts a number in flight. The loop of the checksum is
-- given the rounds that a 32-bit sum can need, and that of `FileDescriptor::write` the size of what it
-- writes plus one: every round but the last takes a byte. So does every round of the writing loop of the
-- benchmark, and every round over the arguments takes one. The outer loops of the benchmark, of the copy
-- program and of the socket, which no bound ends, are given a number of rounds, and say whether they have
-- ended.
--
-- Not modelled: the sharing of strings by `Buffer`, printing, the waiting of one thread for
-- another, addresses, sockets and devices below the adapters, and the other applications: all but
-- the first are input and output. What `random_device` and other generators yield is an argument, and
-- so is the number of the address that is made of the text of a number.
pub mod Base
pub mod Wrapping
pub mod ByteStream
pub mod Reassembler
pub mod Segment
pub mod Receiver
pub mod Sender
pub mod Connection
pub mod TcpState
pub mod Checksum
pub mod Parser
pub mod Network
pub mod Duplex
pub mod Buffer
pub mod FileDescriptor
pub mod Ipv4
pub mod TcpOverIp
pub mod TcpOverUdp
pub mod SpongeSocket
pub mod EventLoop
pub mod Options
pub mod StreamCopy
pub mod Benchmark
pub mod Examples
