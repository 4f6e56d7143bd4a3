-- ===== src/Client/Stream/Partial.antt =====
-- A stream that ends inside a frame (internals.rs, `handle_data`).
use mip_clients.Common.{
  ◌+◌, ◌≡◌, ◌≤◌, ◌<◌, ap, sym, ◌∙◌, Bytes, List, [], ◌++◌, some, length, All, ltb, Bool-cases, inl,
  inr, true, slice, bytes_eq, arith, append-nil, length-append,
}
use mathlib.Core.List.{flatten}
use mip_clients.Protocol.{Bitflags, msip_magic}
use mip_clients.Client.Events.{Callbacks}
use mip_clients.Client.Stream.{payload_length, read_chunks}
use mip_clients.Client.Stream.Rounds.{
  slice-append, payload_length-append, waits_short, waits_payload,
}
use mip_clients.Client.Stream.Chunks.{Waits}
use mip_clients.Client.Stream.Frames.{
  Frame, IsFrame, wire, wire_stream, deliveries, wire_magic, payload_length-wire, length-wire,
  read_chunks-wire_stream,
}

-- The front of a frame, with at least one byte missing.
pub record IsFront (tail : Bytes) (f : Frame) (missing : Bytes) : Type 0 where
  pub whole : tail ++ missing ≡ wire f
  pub cut : 0 < length missing
  pub frame : IsFrame f

module _ (tail : Bytes) (f : Frame) (missing : Bytes) (front : IsFront tail f missing) where
  whole' : tail ++ missing ≡ wire f ++ []
  whole' = front.whole ∙ sym (append-nil (wire f))

  length-front : length tail < 24 + length f.payload
  length-front =
      omega (arith, length-append tail missing, ap length whole', length-wire f [], front.cut)

  front_magic : 24 ≤ length tail → bytes_eq (slice tail 0 4) msip_magic ≡ true
  front_magic h =
      rw (sym (slice-append tail missing 0 4 (omega arith) (omega arith)), whole') (wire_magic f [])

  front_payload_length : 24 ≤ length tail → payload_length tail ≡ length f.payload
  front_payload_length h =
      sym (payload_length-append tail missing h)
      ∙ ap payload_length whole'
      ∙ payload_length-wire f [] front.frame

  -- The front of a frame stays in the buffer.
  Waits-front : (bitflags : Bitflags) (cbs : Callbacks) → Waits bitflags cbs tail
  Waits-front bitflags cbs = elim (Bool-cases (ltb (length tail) 24)) [
    | inl e ↦ waits_short bitflags cbs tail e
    | inr e ↦
        let full : 24 ≤ length tail = ground arith in
        let short : length tail < 24 + payload_length tail =
          rw (front_payload_length full) length-front in
        waits_payload bitflags cbs tail e (front_magic full) (ground arith)
  ]

  -- However the reads cut a stream of frames, followed by the front of one more, into chunks, the
  -- client makes the calls of each whole frame, in the order of the frames, and keeps the front.
  pub read_chunks-front :
      (bitflags : Bitflags) (cbs : Callbacks) (fs : List Frame) (chunks : List Bytes)
      → All IsFrame fs
      → flatten chunks ≡ wire_stream fs ++ tail
      → read_chunks bitflags cbs [] chunks ≡ some (tail, deliveries cbs fs)
  read_chunks-front bitflags cbs fs chunks v e =
      read_chunks-wire_stream bitflags cbs fs tail chunks v (Waits-front bitflags cbs) e
