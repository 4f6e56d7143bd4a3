-- ===== src/Protocol.antt =====
-- The MSIP frame header: mip-client-rust/src/protocol/header.rs.
-- The `bitflags!` macro is the bitflags crate's: what it generates is the parameter `Bitflags`.
pub mod Codes
pub mod Layout
pub mod Decode
pub mod Verdicts
pub mod RoundTrip
use mip_clients.Common.{
  ℕ, ◌-◌, ◌≡◌, ◌<◌, not, Bytes, Text, ascii, List, [], ◌∷◌, bit_and, bit_or, ◌==◌, if◌then◌else◌,
  bytes_eq, slice, get_or, overwrite, replicate, to_be_bytes, from_be_bytes, Result, ok, err,
  require, map_err, ◌>>=◌, ◌>>◌,
}

abbrev pub msip_magic : Bytes
msip_magic = ascii "MSIP"

abbrev pub msip_version : ℕ
msip_version = 1

abbrev pub header_size : ℕ
header_size = 24

-- The struct holds a `u8`; bits that no constant names are possible (`from_bits_retain`).
pub record FrameFlags : Type 0 where
  pub bits : ℕ

abbrev pub no_flags : FrameFlags
no_flags = record { bits = 0b0000_0000 }

abbrev pub ack_required : FrameFlags
ack_required = record { bits = 0b0000_0001 }

abbrev pub compressed : FrameFlags
compressed = record { bits = 0b0000_0010 }

abbrev pub urgent : FrameFlags
urgent = record { bits = 0b0000_0100 }

-- The bits that the constants name.
abbrev pub declared_bits : ℕ
declared_bits = bit_or ack_required.bits (bit_or compressed.bits urgent.bits)

-- What the crate documents: `all` has the bits of every constant, and `from_bits_truncate` unsets
-- the bits that no constant names.
pub record Bitflags : Type 0 where
  pub all : FrameFlags
  pub from_bits_truncate : ℕ → FrameFlags
  pub bits-all : all.bits ≡ declared_bits
  pub bits-from_bits_truncate :
      (b : ℕ) → b < 256 → (from_bits_truncate b).bits ≡ bit_and b declared_bits

pub data FrameType : Type 0 where
  hello subscribe unsubscribe publish event ack error ping pong close : FrameType

pub data MessageKind : Type 0 where
  event command state log metric : MessageKind

-- `frame_type as u16`
abbrev pub frame_type_code : FrameType → ℕ
frame_type_code FrameType.hello = 0x0001
frame_type_code FrameType.subscribe = 0x0002
frame_type_code FrameType.unsubscribe = 0x0003
frame_type_code FrameType.publish = 0x0004
frame_type_code FrameType.event = 0x0005
frame_type_code FrameType.ack = 0x0006
frame_type_code FrameType.error = 0x0007
frame_type_code FrameType.ping = 0x0008
frame_type_code FrameType.pong = 0x0009
frame_type_code FrameType.close = 0x000A

-- `msg_kind as u16`
abbrev pub message_kind_code : MessageKind → ℕ
message_kind_code MessageKind.event = 0x0001
message_kind_code MessageKind.command = 0x0002
message_kind_code MessageKind.state = 0x0003
message_kind_code MessageKind.log = 0x0004
message_kind_code MessageKind.metric = 0x0005

unfoldable pub frame_type_try_from : ℕ → Result Unit FrameType
frame_type_try_from v =
    if v == 0x0001
    then ok FrameType.hello
    else if v == 0x0002
    then ok FrameType.subscribe
    else if v == 0x0003
    then ok FrameType.unsubscribe
    else if v == 0x0004
    then ok FrameType.publish
    else if v == 0x0005
    then ok FrameType.event
    else if v == 0x0006
    then ok FrameType.ack
    else if v == 0x0007
    then ok FrameType.error
    else if v == 0x0008
    then ok FrameType.ping
    else if v == 0x0009
    then ok FrameType.pong
    else if v == 0x000A
    then ok FrameType.close
    else err tt

unfoldable pub message_kind_try_from : ℕ → Result Unit MessageKind
message_kind_try_from v =
    if v == 0x0001
    then ok MessageKind.event
    else if v == 0x0002
    then ok MessageKind.command
    else if v == 0x0003
    then ok MessageKind.state
    else if v == 0x0004
    then ok MessageKind.log
    else if v == 0x0005
    then ok MessageKind.metric
    else err tt

pub record Header : Type 0 where
  pub magic : Bytes
  pub version : ℕ
  pub flags : FrameFlags
  pub frame_type : FrameType
  pub msg_kind : MessageKind
  pub payload_len : ℕ
  pub msg_id : ℕ

unfoldable pub header_new : FrameType → MessageKind → ℕ → ℕ → FrameFlags → Header
header_new frame_type msg_kind payload_len msg_id flags = record {
  magic = msip_magic;
  version = msip_version;
  flags = flags;
  frame_type = frame_type;
  msg_kind = msg_kind;
  payload_len = payload_len;
  msg_id = msg_id;
}

-- A zeroed buffer, and the source's writes in its order.
unfoldable pub encode : Header → Bytes
encode h =
    let buf0 : Bytes = replicate header_size 0 in
    let buf1 = overwrite buf0 0 h.magic in
    let buf2 = overwrite buf1 4 (h.version ∷ []) in
    let buf3 = overwrite buf2 5 (h.flags.bits ∷ []) in
    let buf4 = overwrite buf3 6 (to_be_bytes 2 (frame_type_code h.frame_type)) in
    let buf5 = overwrite buf4 8 (to_be_bytes 2 (message_kind_code h.msg_kind)) in
    let buf6 = overwrite buf5 10 (to_be_bytes 2 0) in
    let buf7 = overwrite buf6 12 (to_be_bytes 4 h.payload_len) in
    overwrite buf7 16 (to_be_bytes 8 h.msg_id)

module _ (bitflags : Bitflags) where
  open bitflags use {all, from_bits_truncate}

  -- The buffer is a `[u8; 24]`; `!x` on a `u8` is `255 - x`.
  unfoldable pub try_from : Bytes → Result Text Header
  try_from buf =
      let byte = λ (i : ℕ). get_or buf i 0 in
      let flags = from_bits_truncate (byte 5) in
      do
        require (bytes_eq (slice buf 0 4) msip_magic) (ascii "invalid magic")
        require (byte 4 == msip_version) (ascii "unsupported version")
        require (bit_and flags.bits (255 - all.bits) == 0) (ascii "invalid flags")
        frame_type ←
            map_err (λ _. ascii "invalid frame type")
              (frame_type_try_from (from_be_bytes (slice buf 6 8)))
        msg_kind ←
            map_err (λ _. ascii "invalid message kind")
              (message_kind_try_from (from_be_bytes (slice buf 8 10)))
        ok (record {
          magic = msip_magic;
          version = byte 4;
          flags = flags;
          frame_type = frame_type;
          msg_kind = msg_kind;
          payload_len = from_be_bytes (slice buf 12 16);
          msg_id = from_be_bytes (slice buf 16 24);
        })
