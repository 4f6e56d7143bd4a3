-- ===== src/Client/Dispatch.antt =====
-- `process_frame` of mip-client-rust/src/client/internals.rs.
pub mod Fanout
use mip_clients.Common.{
  Bytes, Bool, true, false, List, [], ◌++◌, map, Option, none, some, if◌then◌else◌,
}
use mip_clients.Utf8.{from_utf8_lossy}
use mip_clients.Protocol.{Header, FrameType}
use mip_clients.Client.Types.{MipMessage, MipError}
use mip_clients.Client.Events.{Callbacks, Call, emit_error}
use mip_clients.Client.Message.{parse_message}

-- `header.frame_type == FrameType::Event`
abbrev is_event : FrameType → Bool
is_event FrameType.event = true
is_event _ = false

-- The body of `if let Some(msg) = parse_message(..)`.
emit_message : Callbacks → Header → Option MipMessage → List Call
emit_message cbs header none = []
emit_message cbs header (some msg) =
    (if is_event header.frame_type then map (Call.event msg) cbs.on_event else [])
    ++ map (Call.message msg) cbs.on_message

-- The `match` on the frame type.
dispatch : FrameType → Callbacks → Header → Bytes → List Call
dispatch FrameType.event cbs header payload = emit_message cbs header (parse_message header payload)
dispatch FrameType.publish cbs header payload =
    emit_message cbs header (parse_message header payload)
dispatch FrameType.ack cbs header payload = map (Call.ack header.msg_id) cbs.on_ack
dispatch FrameType.pong cbs header payload = map Call.pong cbs.on_pong
dispatch FrameType.error cbs header payload =
    emit_error cbs (MipError.server_error (from_utf8_lossy payload))
dispatch FrameType.close cbs header payload = []
dispatch _ cbs header payload = []

unfoldable pub process_frame : Header → Bytes → Callbacks → List Call
unfolding dispatch emit_message emit_error
process_frame header payload cbs =
    map (Call.frame header payload) cbs.on_frame ++ dispatch header.frame_type cbs header payload
