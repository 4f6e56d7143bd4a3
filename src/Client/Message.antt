-- ===== src/Client/Message.antt =====
-- `parse_message` of mip-client-rust/src/client/internals.rs, and the payload that `publish` of
-- mip-client-rust/src/client/mod.rs builds.
pub mod RoundTrip
use mip_clients.Common.{
  ℕ, ◌+◌, ◌%◌, ◌^◌, Bytes, Text, as_bytes, List, [], ◌∷◌, ◌++◌, Option, none, some, ltb,
  if◌then◌else◌, length, get_or, slice, drop, to_be_bytes, from_be_bytes,
}
use mip_clients.Utf8.{from_utf8_lossy}
use mip_clients.Protocol.{Header}
use mip_clients.Client.Types.{MipMessage}

unfoldable pub topic_length : Bytes → ℕ
topic_length payload = from_be_bytes (get_or payload 0 0 ∷ get_or payload 1 0 ∷ [])

unfoldable pub parse_message : Header → Bytes → Option MipMessage
unfolding topic_length
parse_message header payload =
    if ltb (length payload) 2
    then none
    else if ltb (length payload) (2 + topic_length payload)
    then none
    else some (record {
      header = header;
      topic = from_utf8_lossy (slice payload 2 (2 + topic_length payload));
      message = from_utf8_lossy (drop (2 + topic_length payload) payload);
    })

-- [topic length as u16] [topic] [message]
unfoldable pub publish_payload : Text → Text → Bytes
publish_payload topic message =
    to_be_bytes 2 (length (as_bytes topic) % 2 ^ 16) ++ (as_bytes topic ++ as_bytes message)
