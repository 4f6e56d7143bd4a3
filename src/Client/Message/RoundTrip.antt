-- ===== src/Client/Message/RoundTrip.antt =====
-- The payload that `publish` builds, as `parse_message` reads it (mod.rs, internals.rs).
use mip_clients.Common.{
  ℕ, suc, ◌+◌, ◌-◌, ◌%◌, ◌^◌, ◌≡◌, ◌≤◌, ◌<◌, ◌↔◌, ◌⊎◌, ◌∙◌, Bytes, Text, ◌++◌, none, some, ltb,
  false, length, take, drop, slice, arith, length-append, from_be_bytes-to_be_bytes, take-append,
  drop-append, take-length, drop-length,
}
use mip_clients.Utf8.{from_utf8_lossy, IsUtf8}
use mip_clients.Utf8.Valid.{from_utf8_lossy-IsUtf8}
use mip_clients.Protocol.{Header}
use mip_clients.Client.Message.{topic_length, parse_message, publish_payload}

-- A payload is refused exactly when it is too short for a topic length, or for the topic.
pub parse_message-none_iff :
    (h : Header) (payload : Bytes)
    → (parse_message h payload ≡ none)
      ↔ ((length payload < 2) ⊎ (length payload < 2 + topic_length payload))
unfolding parse_message
parse_message-none_iff h payload = ground arith

topic_length-payload :
    (topic message : Text) → topic_length (publish_payload topic message) ≡ length topic % 2 ^ 16
unfolding topic_length publish_payload
topic_length-payload topic message =
    from_be_bytes-to_be_bytes 2 (length topic % 2 ^ 16) (omega arith)

drop-payload :
    (topic message : Text) (n : ℕ)
    → drop (2 + n) (publish_payload topic message) ≡ drop n (topic ++ message)
unfolding publish_payload
drop-payload topic message n = let e : 2 + n ≡ suc (suc n) = omega arith in rw e

pub length-payload :
    (topic message : Text)
    → length (publish_payload topic message) ≡ 2 + length topic + length message
unfolding publish_payload
length-payload topic message = omega (arith, length-append topic message)

parse_message-cut :
    (h : Header) (payload : Bytes) (n : ℕ)
    → topic_length payload ≡ n
    → 2 + n ≤ length payload
    → parse_message h payload
      ≡ some (record {
        header = h;
        topic = from_utf8_lossy (slice payload 2 (2 + n));
        message = from_utf8_lossy (drop (2 + n) payload);
      })
unfolding parse_message
parse_message-cut h payload n e le =
    let long : ltb (length payload) 2 ≡ false = ground arith in
    let longer : ltb (length payload) (2 + n) ≡ false = ground arith in rw (long, e, longer)

slice-payload :
    (topic message : Text) (n : ℕ)
    → n ≤ length topic
    → slice (publish_payload topic message) 2 (2 + n) ≡ take n topic
unfolding publish_payload
slice-payload topic message n le =
    let e : 2 + n - 2 ≡ n = omega arith in rw (e, take-append n topic message le)

-- The length field is the topic's length modulo 2 ^ 16, and the payload is cut there, whatever the
-- topic's length is.
pub parse_message-publish_payload :
    (h : Header) (topic message : Text)
    → parse_message h (publish_payload topic message)
      ≡ some (record {
        header = h;
        topic = from_utf8_lossy (take (length topic % 2 ^ 16) topic);
        message = from_utf8_lossy (drop (length topic % 2 ^ 16) topic ++ message);
      })
parse_message-publish_payload h topic message =
    let n = length topic % 2 ^ 16 in
    let le : n ≤ length topic = omega arith in
    parse_message-cut h (publish_payload topic message) n (topic_length-payload topic message)
      (omega (arith, length-payload topic message))
    ∙ rw (
      slice-payload topic message n le,
      drop-payload topic message n,
      drop-append n topic message le,
    )

-- A topic of less than 2 ^ 16 bytes and a message are read back as they were published.
pub parse_message-publish :
    (h : Header) (topic message : Text)
    → IsUtf8 topic
    → IsUtf8 message
    → length topic < 2 ^ 16
    → parse_message h (publish_payload topic message)
      ≡ some (record { header = h; topic = topic; message = message })
parse_message-publish h topic message ut um lt =
    let n : length topic % 2 ^ 16 ≡ length topic = omega arith in
    parse_message-publish_payload h topic message
    ∙ rw (
      n,
      take-length topic,
      drop-length topic,
      from_utf8_lossy-IsUtf8 topic ut,
      from_utf8_lossy-IsUtf8 message um,
    )
