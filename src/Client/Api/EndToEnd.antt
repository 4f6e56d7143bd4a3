-- ===== src/Client/Api/EndToEnd.antt =====
-- From `publish` on one client to the message callbacks of another (mod.rs, internals.rs).
use mip_clients.Common.{
  ℕ, ◌+◌, ◌%◌, ◌^◌, ◌≡◌, ◌<◌, ◌∙◌, ap, Bytes, Text, List, [], ◌∷◌, ◌++◌, some, ok, length, map,
  arith,
}
use mip_clients.Utf8.{IsUtf8}
use mip_clients.Protocol.{Bitflags, FrameType, MessageKind, FrameFlags, header_new}
use mip_clients.Client.Types.{MipMessage}
use mip_clients.Client.Events.{Callbacks, Call}
use mip_clients.Client.Message.{publish_payload}
use mip_clients.Client.Message.RoundTrip.{parse_message-publish, length-payload}
use mip_clients.Client.Dispatch.{process_frame}
use mip_clients.Client.Dispatch.Fanout.{messages, copies, messages-process_frame}
use mip_clients.Client.Stream.{handle_data}
use mip_clients.Client.Stream.Frames.{Frame, IsFrame, wire, received_header, handle_data-wire}
use mip_clients.Client.Sending.{send, Mpsc, Reading, generate_msg_id, build_frame}
use mip_clients.Client.Api.{World, publish}
use mip_clients.Client.Api.Outcomes.{CanSend, pending, send_raw_frame-CanSend}

-- What `send_frame` puts on the wire.
abbrev pub sent : FrameType → Bytes → FrameFlags → ℕ → Frame
sent t p f id = record {
  frame_type = t;
  msg_kind = MessageKind.event;
  msg_id = id;
  flags = f;
  payload = p;
}

-- A payload below 4 GiB is sent whole, with its own length in the header.
pub build_frame-wire :
    (t : FrameType) (p : Bytes) (f : FrameFlags) (id : ℕ)
    → length p < 2 ^ 32
    → build_frame t p f id ≡ wire (sent t p f id)
unfolding build_frame header_new
build_frame-wire t p f id h = let n : length p % 2 ^ 32 ≡ length p = omega arith in rw n

generate_msg_id-lt : (counter : ℕ) (now : Reading) → (generate_msg_id counter now).0 < 2 ^ 64
unfolding generate_msg_id
generate_msg_id-lt counter now = omega arith

sent-IsFrame :
    (t : FrameType) (p : Bytes) (f : FrameFlags) (counter : ℕ) (now : Reading)
    → length p < 2 ^ 32
    → f.bits < 256
    → IsFrame (sent t p f (generate_msg_id counter now).0)
sent-IsFrame t p f counter now h u8 = record {
  msg_id_u64 = omega (arith, generate_msg_id-lt counter now);
  flags_u8 = u8;
  payload_len_u32 = omega arith;
}

-- A published message, as the receiver sees it.
abbrev pub received_message : Text → Text → FrameFlags → ℕ → MipMessage
received_message topic message f id = record {
  header = received_header (sent FrameType.publish (publish_payload topic message) f id);
  topic = topic;
  message = message;
}

module _ (bitflags : Bitflags) (cbs : Callbacks) (topic message : Text) (f : FrameFlags)
    (id : ℕ) where
  published_messages :
      IsUtf8 topic
      → IsUtf8 message
      → length topic < 2 ^ 16
      → messages (
          process_frame
            (received_header (sent FrameType.publish (publish_payload topic message) f id))
            (publish_payload topic message)
            cbs)
        ≡ map (λ k. (k, received_message topic message f id)) cbs.on_message
  unfolding header_new
  published_messages ut um lt =
      messages-process_frame _ (publish_payload topic message) cbs
      ∙ ap (copies cbs.on_message) (parse_message-publish _ topic message ut um lt)

-- A client that can send publishes a topic of less than 2 ^ 16 bytes and a message, together below
-- 4 GiB, by queueing one frame. A client that reads this frame, be it echoed or passed on unchanged,
-- empties its buffer, and calls each of its message callbacks once, in the order of registration, with
-- this topic, this message and the id that `publish` returned.
pub publish-handle_data :
    {Chan : Type 0} (mpsc : Mpsc Chan) (bitflags : Bitflags) (cbs : Callbacks) (w : World Chan)
    (now : Reading) (topic message : Text) (f : FrameFlags)
    → CanSend mpsc w
    → IsUtf8 topic
    → IsUtf8 message
    → length topic < 2 ^ 16
    → 2 + length topic + length message < 2 ^ 32
    → f.bits < 256
    → (id : ℕ) × (frame : Bytes) × (calls : List Call) × ((publish mpsc w now topic message f).0
        ≡ ok id)
      × (pending mpsc (publish mpsc w now topic message f).1 ≡ pending mpsc w ++ (send frame ∷ []))
      × (handle_data bitflags cbs frame ≡ some ([], calls))
      × (messages calls ≡ map (λ k. (k, received_message topic message f id)) cbs.on_message)
publish-handle_data mpsc bitflags cbs w now topic message f can ut um lt small u8 =
    let id = (generate_msg_id w.client.msg_id_counter now).0 in
    let p = publish_payload topic message in
    let fr = sent FrameType.publish p f id in
    let short : length p < 2 ^ 32 = omega (arith, length-payload topic message) in
    let (e, q, _) = send_raw_frame-CanSend mpsc w now FrameType.publish p f can in
    (
      id,
      wire fr,
      process_frame (received_header fr) p cbs,
      unfold publish in e,
      unfold publish in (rw (build_frame-wire FrameType.publish p f id short) at q),
      handle_data-wire bitflags cbs fr
          (sent-IsFrame FrameType.publish p f w.client.msg_id_counter now short u8),
      published_messages bitflags cbs topic message f id ut um lt,
    )
