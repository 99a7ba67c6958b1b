-- ===== src/Lib.antt =====
-- A verification library for aeron-rs, a Rust port of a reliable UDP messaging transport. A
-- publication appends frames to a log of four term partitions; the sender agent scans the log and
-- sends what it finds; receivers answer with status messages and NAKs, and a NAK schedules a
-- retransmission. What is modelled, from the repository's root:
--
--   Frame         src/frame.rs, the wire format: a header is the list of its bytes; `parse` is the
--                 overlay of a packed struct, `write` copies the bytes.
--   Log           src/media/term_buffer.rs, `RawLog`: a memory (a function from addresses to bytes)
--                 with a term length; `new`, `append_frame`, `scan_frames`, `clean_partition` and
--                 `write_pad_frame` are its operations. A scan returns the calls of `emit`.
--   Publication   src/media/network_publication.rs, `NetworkPublication` over a `RawLog`: `offer`
--                 with back-pressure, padding and rotation, and `sender_scan`.
--   Concurrent    src/media/concurrent_publication.rs, the same over a shared log (Log/Shared) with a
--                 handle for the publisher and one for the sender: the shared state is passed beside
--                 a handle, each store of an offer is a function, and `offer_stores` lists the
--                 shared states between them.
--   Image         src/media/shared_image.rs, the log of a received stream: `append_frame` of the
--                 receiver's handle, `poll_fragments` of the subscriber's. A round of the poll takes
--                 what each of its loads finds as an argument of its own.
--   Retransmit    src/media/retransmit_handler.rs, the table of pending retransmissions: `on_nak`
--                 and `process_timeouts`, which returns the calls of its callback.
--   Bridge        src/client/bridge.rs and src/client/sub_bridge.rs, the slots that carry handles
--                 between threads: one model for the three bridges. `deposit` and `try_take` are
--                 functions of the slots; Bridge/Race is the relation of their atomic accesses.
--   Idle          src/agent/idle_strategy.rs, the backoff of the agents' threads.
--   Command       src/cnc/command.rs, the commands of the clients and the responses of the driver,
--                 with a module for each. Which bytes are UTF-8 is a parameter.
--   RingBuffer    src/cnc/ring_buffer.rs, the ring that carries the commands from the clients to the
--                 conductor: `write` is a claim of bytes at the tail and their fill; `read`.
--   Broadcast     src/cnc/broadcast.rs, the buffer that carries the conductor's responses to all
--                 clients: `transmit`, and `receive` with the check for a lapped cursor.
--   Records       what these two buffers share: how records lie in a ring.
--   Context       src/context.rs, the configuration and its validation, which a publication's
--                 construction relies on.
--   Pool          src/media/buffer_pool.rs, the allocator of send and receive slots.
--   Prelude       numbers, lists, machine words and byte memory that the parts share.
--
-- A publication holds a log and calls it; the handler is the sender agent's, which feeds it NAKs.
-- Integers are natural numbers: an `i32` or `i64` is its bit pattern, and wrapping arithmetic is
-- written out modulo 2 ^ 32 or 2 ^ 64 (Prelude/Word). Sums that the source leaves unchecked wrap, as
-- in a release build. Mutable state is passed and returned.
--
-- The loop of `scan_frames` has fuel, the term length: each round advances by 32 bytes or more, so
-- the fuel is enough, which is proved; so it is with the loops of `poll_fragments`
-- and, over a buffer of records, of `read` and `receive`. The other loops are structural.
--
-- The theorems on a publication are about positions below 2 ^ 62 and terms of at most 2 ^ 30 bytes,
-- which their hypotheses state. Not modelled: sockets, io_uring, threads and the memory-mapped
-- files, which are the operating system's, and, so far, the agents and the CnC file.
pub mod Prelude
pub mod Frame
pub mod Log
pub mod Publication
pub mod Bridge
pub mod Broadcast
pub mod Command
pub mod Concurrent
pub mod Image
pub mod Context
pub mod Idle
pub mod Pool
pub mod Records
pub mod Retransmit
pub mod RingBuffer
