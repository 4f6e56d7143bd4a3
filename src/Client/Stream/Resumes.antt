-- ===== src/Client/Stream/Resumes.antt =====
-- How the stream goes on behind bytes that do not begin with the magic (internals.rs, `handle_data`).
use mathlib.Core.List.{flatten}
use mip_clients.Common.{
  ℕ, zero, suc, ◌≡◌, ◌≤◌, ◌<◌, sym, ap, ◌∙◌, Bytes, List, [], ◌∷◌, ◌++◌, some, length, All, slice,
  from_be_bytes, append_assoc, arith,
}
use mip_clients.Protocol.{Bitflags}
use mip_clients.Protocol.Decode.{HasMagic}
use mip_clients.Client.Types.{MipError}
use mip_clients.Client.Events.{Callbacks, Call, emit_error}
use mip_clients.Client.Dispatch.{process_frame}
use mip_clients.Client.Stream.{data_loop, handle_data, read_chunks, prepend}
use mip_clients.Client.Stream.Rounds.{data_round_shrinks}
use mip_clients.Client.Stream.Runs.{loop_stop, loop_next}
use mip_clients.Client.Stream.Frames.{
  Frame, IsFrame, wire, wire_stream, deliveries, received_header, wire_round,
}
use mip_clients.Client.Stream.Partial.{IsFront, read_chunks-front}
use mip_clients.Client.Stream.Faults.{magic_round}

-- The first four bytes, as a number, for the error callbacks.
abbrev pub complaint : Callbacks → Bytes → List Call
complaint cbs junk = emit_error cbs (MipError.invalid_magic (from_be_bytes (slice junk 0 4)))

module _ (bitflags : Bitflags) (cbs : Callbacks) (junk : Bytes) (long : 24 ≤ length junk)
    (bad : ¬ HasMagic junk) where
  data_loop-junk :
      (fuel : ℕ) (fs : List Frame)
      → All IsFrame fs
      → length (wire_stream fs ++ junk) < fuel
      → data_loop bitflags cbs fuel (wire_stream fs ++ junk)
        ≡ some ([], deliveries cbs fs ++ complaint cbs junk)
  unfolding wire_stream deliveries
  data_loop-junk zero fs v h = absurd (omega arith)
  data_loop-junk (suc fuel) [] v h =
      loop_stop bitflags cbs fuel junk (magic_round bitflags cbs junk long bad)
  data_loop-junk (suc fuel) (f ∷ fs) v h =
      let rest = wire_stream fs ++ junk in
      let calls = process_frame (received_header f) f.payload cbs in
      let first = wire_round bitflags cbs f rest v.0 in
      let shorter = data_round_shrinks bitflags cbs (wire f ++ rest) rest calls first in
      let same = append_assoc (wire f) (wire_stream fs) junk in
      ap (data_loop bitflags cbs (suc fuel)) same
      ∙ loop_next bitflags cbs fuel (wire f ++ rest) first
      ∙ ap (prepend calls) (data_loop-junk fuel fs v.1 (omega (arith, shorter, ap length same)))
      ∙ ap (λ xs. some ([], xs)) (sym (append_assoc calls (deliveries cbs fs) (complaint cbs junk)))

  handle_data-junk :
      (fs : List Frame)
      → All IsFrame fs
      → handle_data bitflags cbs (wire_stream fs ++ junk)
        ≡ some ([], deliveries cbs fs ++ complaint cbs junk)
  unfolding handle_data
  handle_data-junk fs v = data_loop-junk (suc (length (wire_stream fs ++ junk))) fs v (omega arith)

  -- A read brings frames and then 24 bytes or more that do not begin with the magic, whatever else they
  -- hold. The frames in front are delivered, the error callbacks get the four bytes as a number, once,
  -- and all from there to the end of that read is dropped, frames included. Later reads, however they
  -- cut further frames and the front of one more, are read as on a fresh connection.
  pub read_chunks-junk :
      (tail : Bytes) (f : Frame) (missing : Bytes)
      → IsFront tail f missing
      → (before after : List Frame) (chunks : List Bytes) → All IsFrame before
      → All IsFrame after
      → flatten chunks ≡ wire_stream after ++ tail
      → read_chunks bitflags cbs [] ((wire_stream before ++ junk) ∷ chunks)
        ≡ some (tail, (deliveries cbs before ++ complaint cbs junk) ++ deliveries cbs after)
  unfolding read_chunks
  read_chunks-junk tail f missing front before after chunks v w e =
      rw (read_chunks, handle_data-junk before v)
        (ap (prepend (deliveries cbs before ++ complaint cbs junk))
          (read_chunks-front tail f missing front bitflags cbs after chunks w e))
