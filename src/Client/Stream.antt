-- ===== src/Client/Stream.antt =====
-- `handle_data` of mip-client-rust/src/client/internals.rs, and the part of the read task that calls
-- it. Its `while` loop takes fuel; one round removes 24 bytes at least, so one unit more than the
-- buffer has bytes is enough.
pub mod Rounds
pub mod Calls
pub mod Runs
pub mod Chunks
pub mod Frames
pub mod Partial
pub mod Messages
pub mod Faults
pub mod Resumes
use mip_clients.Common.{
  ℕ, zero, suc, ◌+◌, ◌≡◌, Bool, not, Bytes, List, [], ◌∷◌, ◌++◌, Option, none, some, ltb,
  if◌then◌else◌, length, take, drop, slice, bytes_eq, from_be_bytes, Result, ok, err,
}
use mip_clients.Protocol.{Bitflags, Header, try_from, header_size, msip_magic}
use mip_clients.Client.Types.{MipError}
use mip_clients.Client.Events.{Callbacks, Call, emit_error}
use mip_clients.Client.Dispatch.{process_frame}

-- How one round of the loop ends: by `return` or the loop's test, or with another round.
pub data Round : Type 0 where
  stop : Bytes → List Call → Round
  next : Bytes → List Call → Round

unfoldable pub payload_length : Bytes → ℕ
payload_length buffer = from_be_bytes (slice buffer 12 16)

module _ (bitflags : Bitflags) (cbs : Callbacks) where
  -- The rest of the round, after the header was parsed.
  parsed : Bytes → Result Bytes Header → Round
  unfolding payload_length process_frame emit_error
  parsed buffer (err e) = next (drop header_size buffer) (emit_error cbs (MipError.protocol e))
  parsed buffer (ok header) =
      let end = header_size + payload_length buffer in
      next (drop end buffer) (process_frame header (slice buffer header_size end) cbs)

  unfoldable pub data_round : Bytes → Round
  unfolding parsed emit_error payload_length
  data_round buffer =
      if ltb (length buffer) header_size
      then stop buffer []
      else if not (bytes_eq (slice buffer 0 4) msip_magic)
      then stop [] (emit_error cbs (MipError.invalid_magic (from_be_bytes (slice buffer 0 4))))
      else if ltb (length buffer) (header_size + payload_length buffer)
      then stop buffer []
      else parsed buffer (try_from bitflags (take header_size buffer))

-- The calls of this round before those of the rest.
abbrev pub prepend : List Call → Option (Bytes × List Call) → Option (Bytes × List Call)
prepend calls none = none
prepend calls (some (buffer, more)) = some (buffer, calls ++ more)

module _ (bitflags : Bitflags) (cbs : Callbacks) where
  unfoldable pub data_loop : ℕ → Bytes → Option (Bytes × List Call)
  data_loop zero buffer = none
  data_loop (suc fuel) buffer = elim (data_round bitflags cbs buffer) [
    | stop rest calls ↦ some (rest, calls)
    | next rest calls ↦ prepend calls (data_loop fuel rest)
  ]

  unfoldable pub handle_data : Bytes → Option (Bytes × List Call)
  handle_data buffer = data_loop (suc (length buffer)) buffer

  -- `Ok(n)` in the read task: each chunk read is appended to the buffer, and `handle_data` runs.
  unfoldable pub read_chunks : Bytes → List Bytes → Option (Bytes × List Call)
  read_chunks buffer [] = some (buffer, [])
  read_chunks buffer (chunk ∷ chunks) = elim (handle_data (buffer ++ chunk)) [
    | none ↦ none
    | some (rest, calls) ↦ prepend calls (read_chunks rest chunks)
  ]
