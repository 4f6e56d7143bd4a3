-- ===== src/Client/Stream/Frames.antt =====
-- A stream of frames as the peer writes them, read back by `handle_data` (internals.rs).
use mip_clients.Common.{
  ℕ, ◌+◌, ◌^◌, ◌≡◌, ◌<◌, refl, ◌-◌, sym, ◌∙◌, Bytes, List, [], ◌∷◌, ◌++◌, some, length, All, take,
  drop, slice, arith, append-nil, append_assoc, length-append, from_be_bytes-to_be_bytes,
  take-length_append, drop-length_append, true, bytes_eq,
}
use mathlib.Core.Path.{ap₂}
use mathlib.Core.List.{flatten}
use mip_clients.Protocol.{
  Bitflags, Header, FrameType, MessageKind, FrameFlags, header_new, encode, msip_magic,
}
use mip_clients.Protocol.RoundTrip.{try_from-encode}
use mip_clients.Protocol.Decode.{known}
use mip_clients.Client.Events.{Callbacks, Call}
use mip_clients.Client.Dispatch.{process_frame}
use mip_clients.Client.Stream.{next, data_round, payload_length, handle_data, read_chunks}
use mip_clients.Client.Stream.Rounds.{accepted_round}
use mip_clients.Client.Stream.Runs.{Runs, done, round, handle_data-Runs}
use mip_clients.Client.Stream.Chunks.{Waits, read_chunks-Runs}

-- What a peer puts into a frame.
pub record Frame : Type 0 where
  pub frame_type : FrameType
  pub msg_kind : MessageKind
  pub msg_id : ℕ
  pub flags : FrameFlags
  pub payload : Bytes

-- The ranges of the integers, and a payload whose length fits its field.
pub record IsFrame (f : Frame) : Type 0 where
  pub msg_id_u64 : f.msg_id < 256 ^ 8
  pub flags_u8 : f.flags.bits < 256
  pub payload_len_u32 : length f.payload < 256 ^ 4

abbrev pub sent_header : Frame → Header
sent_header f = header_new f.frame_type f.msg_kind (length f.payload) f.msg_id f.flags

-- The header as it arrives: undeclared flag bits are unset.
abbrev pub received_header : Frame → Header
received_header f =
    header_new f.frame_type f.msg_kind (length f.payload) f.msg_id (known f.flags.bits)

abbrev pub wire : Frame → Bytes
wire f = encode (sent_header f) ++ f.payload

unfoldable pub wire_stream : List Frame → Bytes
wire_stream [] = []
wire_stream (f ∷ fs) = wire f ++ wire_stream fs

-- The calls that the frames bring about, one frame after the other.
unfoldable pub deliveries : Callbacks → List Frame → List Call
deliveries cbs [] = []
deliveries cbs (f ∷ fs) = process_frame (received_header f) f.payload cbs ++ deliveries cbs fs

length-encode : (f : Frame) → length (encode (sent_header f)) ≡ 24
unfolding encode header_new
length-encode f = refl

module _ (f : Frame) (rest : Bytes) where
  pub wire_magic : bytes_eq (slice (wire f ++ rest) 0 4) msip_magic ≡ true
  unfolding encode header_new
  wire_magic = refl

  pub payload_length-wire : IsFrame f → payload_length (wire f ++ rest) ≡ length f.payload
  unfolding payload_length encode header_new
  payload_length-wire v = from_be_bytes-to_be_bytes 4 (length f.payload) v.payload_len_u32

  wire_header : take 24 (wire f ++ rest) ≡ encode (sent_header f)
  unfolding encode header_new
  wire_header = refl

  wire_after_header : drop 24 (wire f ++ rest) ≡ f.payload ++ rest
  unfolding encode header_new
  wire_after_header = refl

  pub length-wire : length (wire f ++ rest) ≡ 24 + length f.payload + length rest
  length-wire = omega (
    arith,
    length-append (wire f) rest,
    length-append (encode (sent_header f)) f.payload,
    length-encode f,
  )

  length-wire_only : length (wire f) ≡ 24 + length f.payload
  length-wire_only =
      omega (arith, length-append (encode (sent_header f)) f.payload, length-encode f)

  wire_rest : drop (24 + length f.payload) (wire f ++ rest) ≡ rest
  wire_rest = rw (← length-wire_only) (drop-length_append (wire f) rest)

  wire_payload : slice (wire f ++ rest) 24 (24 + length f.payload) ≡ f.payload
  wire_payload =
      let n : 24 + length f.payload - 24 ≡ length f.payload = omega arith in
      rw (n, wire_after_header) (take-length_append f.payload rest)

module _ (bitflags : Bitflags) (cbs : Callbacks) where
  pub Waits-nil : Waits bitflags cbs []
  unfolding data_round
  Waits-nil = refl

  pub wire_round :
      (f : Frame) (rest : Bytes)
      → IsFrame f
      → data_round bitflags cbs (wire f ++ rest)
        ≡ next rest (process_frame (received_header f) f.payload cbs)
  wire_round f rest v =
      accepted_round bitflags cbs (wire f ++ rest) (length f.payload) (wire_magic f rest)
        (payload_length-wire f rest v) (omega (arith, length-wire f rest)) (received_header f)
        (rw wire_header (
          try_from-encode bitflags f.frame_type f.msg_kind (length f.payload) f.msg_id f.flags
            v.flags_u8 v.payload_len_u32 v.msg_id_u64))
      ∙ ap₂ (λ r p. next r (process_frame (received_header f) p cbs)) (wire_rest f rest)
          (wire_payload f rest)

  -- One frame in the buffer is delivered, and leaves the buffer empty.
  pub handle_data-wire :
      (f : Frame)
      → IsFrame f
      → handle_data bitflags cbs (wire f)
        ≡ some ([], process_frame (received_header f) f.payload cbs)
  handle_data-wire f v =
      handle_data-Runs bitflags cbs (wire f) (process_frame (received_header f) f.payload cbs) [] (
        round [] (process_frame (received_header f) f.payload cbs) []
          (rw append-nil at (wire_round f [] v)) (sym (append-nil _)) (done Waits-nil refl refl))

  -- A stream of frames with a piece behind them that is less than a frame.
  pub wire_stream-Runs :
      (fs : List Frame) (tail : Bytes)
      → All IsFrame fs
      → Waits bitflags cbs tail
      → Runs bitflags cbs (wire_stream fs ++ tail) (deliveries cbs fs) tail
  unfolding wire_stream deliveries
  wire_stream-Runs [] tail v w = done w refl refl
  wire_stream-Runs (f ∷ fs) tail v w =
      round (wire_stream fs ++ tail) (process_frame (received_header f) f.payload cbs)
        (deliveries cbs fs)
        (rw (append_assoc (wire f) (wire_stream fs) tail)
          (wire_round f (wire_stream fs ++ tail) v.0))
        refl (wire_stream-Runs fs tail v.1 w)

  -- However reads cut a stream of frames, followed by a piece that is less than a frame, into
  -- chunks, the client makes the calls of each frame, in the order of the frames, and keeps the piece.
  pub read_chunks-wire_stream :
      (fs : List Frame) (tail : Bytes) (chunks : List Bytes)
      → All IsFrame fs
      → Waits bitflags cbs tail
      → flatten chunks ≡ wire_stream fs ++ tail
      → read_chunks bitflags cbs [] chunks ≡ some (tail, deliveries cbs fs)
  read_chunks-wire_stream fs tail chunks v w e =
      read_chunks-Runs bitflags cbs [] chunks (deliveries cbs fs) tail Waits-nil
        (rw e (wire_stream-Runs fs tail v w))
