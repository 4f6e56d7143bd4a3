-- ===== src/Lib.antt =====
-- A model of the Rust client of the MIP (MSIP) protocol, mip-client-rust/src/.
--
-- Parts, and the files that model them:
-- mip-client-rust/src/protocol/header.rs: Protocol.antt. `Header::new`, `Header::encode` and
-- `TryFrom<[u8; 24]>` are `header_new`, `encode` and `try_from`; the two `TryFrom<u16>` are
-- `frame_type_try_from` and `message_kind_try_from`. A fixed array is a list of numbers.
-- mip-client-rust/src/client/types.rs and events.rs: Client/Types.antt, Client/Events.antt. A
-- callback is a number, and a call of it with its arguments is an element of a list of calls.
-- mip-client-rust/src/client/internals.rs: `parse_message` in Client/Message.antt, `process_frame`
-- in Client/Dispatch.antt, `handle_data` and the `Ok(n)` arm of the read task in
-- Client/Stream.antt, `generate_msg_id`, `build_header` and `send_frame` in Client/Sending.antt.
-- mip-client-rust/src/client/mod.rs: `MIPClient`, its constructors and the `on_*` methods in
-- Client/State.antt, the sending methods in Client/Api.antt; `connect` and `disconnect`, with
-- `send_close_internal` and `cleanup_tasks` of internals.rs, in Client/Connection.antt.
-- `spawn_read_task`, `spawn_write_task` and `spawn_ping_task` of internals.rs: Client/Tasks.antt, each
-- as its waits and the steps between them.
-- The client with all these tasks at work: Client/System.antt. An event lets one part go on from its
-- wait to the next, the owner of the client included, so that any order of them is a run; `Reach` says
-- which states there are. A connection is known by the place of its channel in `world.channels`.
-- mip-client-rust/src/main.rs, the example: Main.antt, `main` as a composition of the client's calls.
-- `String::from_utf8_lossy` of the standard library: Utf8.antt. A `String` is its bytes.
-- Common holds what these share, and Examples runs and instances.
--
-- How the parts meet: the sending methods put the bytes of a header and a payload into a channel; the
-- write task sends them. What the peer writes is collected by `handle_data`, which cuts it into
-- frames, and `process_frame` tells the callbacks.
--
-- Parameters: what the bitflags crate generates (`Bitflags` in Protocol.antt), and tokio's bounded
-- channel and its receiver (`Mpsc` and `Receiver` in Client/Sending.antt), each with the laws that its
-- documentation gives. The clock is an argument of what reads it. `usize` is taken to have 64 bits,
-- and the `+` of two `u64` wraps, as in a release build.
--
-- Fuel: `data_loop` takes one unit for each round; a round that goes on removes 24 bytes at least, so
-- one unit more than the buffer has bytes is enough. `decimal` writes 20 digits at most, as many as a
-- `u64` can have.
--
-- Not modelled: sockets and timers, but for their answers; the interleaving of parts between two
-- waits, as on several threads; calls whose future is dropped before their end; the bodies of
-- callbacks, and panics in them; log output and what main.rs prints; the `Display` texts of errors;
-- the clients in other languages.
pub mod Common
pub mod Protocol
pub mod Utf8
pub mod Client
pub mod Main
mod Examples
