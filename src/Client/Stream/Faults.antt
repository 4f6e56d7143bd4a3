-- ===== src/Client/Stream/Faults.antt =====
-- What `handle_data` does with bytes that are no frame (internals.rs).
use mip_clients.Common.{
  ℕ, ◌+◌, ◌≡◌, ◌≢◌, ◌≤◌, refl, sym, Bytes, ascii, [], ◌++◌, some, length, slice, take, drop, ltb,
  bytes_eq, arith, append-nil, err, from_be_bytes-to_be_bytes, false, true,
}
use mip_clients.Protocol.{Bitflags, Header, encode, try_from, header_new, msip_magic}
use mip_clients.Protocol.Decode.{refuse_version, HasMagic, bytes_eq-false}
use mip_clients.Client.Types.{MipError}
use mip_clients.Client.Events.{Callbacks, emit_error}
use mip_clients.Client.Dispatch.{process_frame}
use mip_clients.Client.Stream.{handle_data, data_round, stop, payload_length}
use mip_clients.Client.Stream.Rounds.{refused_round, clears-append, invalid_magic_calls}
use mip_clients.Client.Stream.Runs.{done, round, handle_data-Runs}
use mip_clients.Client.Stream.Frames.{
  Frame, IsFrame, wire, sent_header, received_header, wire_round, Waits-nil,
}

-- A frame of another protocol version.
abbrev pub foreign_header : ℕ → Frame → Header
foreign_header version f = record (sent_header f) { version = version }

abbrev pub foreign_wire : ℕ → Frame → Bytes
foreign_wire version f = encode (foreign_header version f) ++ f.payload

module _ (version : ℕ) (f : Frame) where
  foreign_magic : bytes_eq (slice (foreign_wire version f) 0 4) msip_magic ≡ true
  unfolding encode header_new
  foreign_magic = refl

  foreign_payload_length : IsFrame f → payload_length (foreign_wire version f) ≡ length f.payload
  unfolding payload_length encode header_new
  foreign_payload_length v = from_be_bytes-to_be_bytes 4 (length f.payload) v.payload_len_u32

  foreign_size : 24 + length f.payload ≤ length (foreign_wire version f)
  unfolding encode header_new
  foreign_size = omega arith

  foreign_after_header : drop 24 (foreign_wire version f) ≡ f.payload
  unfolding encode header_new
  foreign_after_header = refl

  foreign_refused :
      (bitflags : Bitflags)
      → IsFrame f
      → version ≢ 1
      → try_from bitflags (take 24 (foreign_wire version f)) ≡ err (ascii "unsupported version")
  unfolding encode header_new
  foreign_refused bitflags v h =
      refuse_version bitflags (take 24 (foreign_wire version f)) v.flags_u8 refl h

module _ (bitflags : Bitflags) (cbs : Callbacks) where
  -- A frame with another version in its header is refused with an error, but only its header is
  -- dropped: if its payload is itself a frame, that frame is delivered as if the peer had sent it.
  pub handle_data-foreign :
      (version : ℕ) (f g : Frame)
      → version ≢ 1
      → IsFrame f
      → IsFrame g
      → f.payload ≡ wire g
      → handle_data bitflags cbs (foreign_wire version f)
        ≡ some (
          [],
          emit_error cbs (MipError.protocol (ascii "unsupported version"))
              ++ process_frame (received_header g) g.payload cbs,
        )
  handle_data-foreign version f g h vf vg e =
      let inner = process_frame (received_header g) g.payload cbs in
      handle_data-Runs bitflags cbs (foreign_wire version f) _ [] (
        round f.payload (emit_error cbs (MipError.protocol (ascii "unsupported version"))) inner
          (rw (foreign_after_header version f) at (
            refused_round bitflags cbs (foreign_wire version f) (length f.payload)
              (foreign_magic version f) (foreign_payload_length version f vf)
              (foreign_size version f) (ascii "unsupported version")
              (foreign_refused version f bitflags vf h)))
          refl
          (rw e (
            round [] inner [] (rw append-nil at (wire_round bitflags cbs g [] vg))
              (sym (append-nil inner)) (done (Waits-nil bitflags cbs) refl refl))))

  pub magic_round :
      (b : Bytes)
      → 24 ≤ length b
      → ¬ HasMagic b
      → data_round bitflags cbs b ≡ stop [] (invalid_magic_calls cbs b)
  magic_round b h n =
      let full : ltb (length b) 24 ≡ false = ground arith in
      let bad = bytes_eq-false (slice b 0 4) msip_magic n in
      simp append-nil at (clears-append bitflags cbs b full bad [])
