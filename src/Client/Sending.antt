-- ===== src/Client/Sending.antt =====
-- Message ids and frame sending: `generate_msg_id`, `build_header`, `send_frame` of
-- mip-client-rust/src/client/internals.rs. The bounded channel is tokio's: it is the parameter `Mpsc`.
pub mod Ids
pub mod Queueing
use mip_clients.Common.{
  ℕ, suc, ◌+◌, ◌%◌, ◌^◌, ◌≡◌, ◌<◌, Bool, true, false, not, Bytes, List, [], ◌∷◌, ◌++◌, Option, none,
  some, if◌then◌else◌, length, Result, ok, err,
}
use mip_clients.Protocol.{Header, FrameType, MessageKind, FrameFlags, header_new, encode}
use mip_clients.Client.Types.{MipError, MipResult}

abbrev pub msg_kind_event : MessageKind
msg_kind_event = MessageKind.event

pub data ClientCommand : Type 0 where
  send : Bytes → ClientCommand
  disconnect : ClientCommand

-- What tokio documents of a bounded channel, as the queue of what was sent and not yet received, its
-- `capacity()` now, and `is_closed()`. `try_send` fails when the channel is closed or has no capacity.
pub record Mpsc (Chan : Type 0) : Type 0 where
  pub channel : ℕ → Chan
  pub queued : Chan → List ClientCommand
  pub capacity : Chan → ℕ
  pub is_closed : Chan → Bool
  pub try_send : Chan → ClientCommand → Option Chan
  pub queued-channel : (n : ℕ) → queued (channel n) ≡ []
  pub capacity-channel : (n : ℕ) → capacity (channel n) ≡ n
  pub is_closed-channel : (n : ℕ) → is_closed (channel n) ≡ false
  pub try_send-none : (c : Chan) (x : ClientCommand) → is_closed c ≡ true → try_send c x ≡ none
  pub try_send-full : (c : Chan) (x : ClientCommand) → capacity c ≡ 0 → try_send c x ≡ none
  pub try_send-some :
      (c : Chan) (x : ClientCommand)
      → is_closed c ≡ false
      → 0 < capacity c
      → (d : Chan) × (try_send c x ≡ some d)
        × (queued d ≡ queued c ++ (x ∷ []))
        × (suc (capacity d) ≡ capacity c)
        × (is_closed d ≡ false)

-- What tokio documents of the receiver: `recv` takes the commands in the order sent and waits (`none`)
-- on an empty queue; a place is free again for each command taken; dropping the receiver closes the
-- channel.
pub record Receiver {Chan : Type 0} (mpsc : Mpsc Chan) : Type 0 where
  pub recv : Chan → Option (ClientCommand × Chan)
  pub drop_receiver : Chan → Chan
  pub recv-empty : (c : Chan) → mpsc.queued c ≡ [] → recv c ≡ none
  pub recv-queued :
      (c : Chan) (x : ClientCommand) (xs : List ClientCommand)
      → mpsc.queued c ≡ x ∷ xs
      → (d : Chan) × (recv c ≡ some (x, d))
        × (mpsc.queued d ≡ xs)
        × (mpsc.capacity d ≡ suc (mpsc.capacity c))
        × (mpsc.is_closed d ≡ mpsc.is_closed c)
  pub is_closed-drop_receiver : (c : Chan) → mpsc.is_closed (drop_receiver c) ≡ true

-- `SystemTime::now().duration_since(UNIX_EPOCH)` in microseconds; `none` if the clock is before 1970.
abbrev pub Reading : Type 0
Reading = Option ℕ

-- `.unwrap_or_default().as_micros() as u64`
abbrev pub timestamp : Reading → ℕ
timestamp none = 0
timestamp (some micros) = micros % 2 ^ 64

-- The id, and the counter after `fetch_add`. Both sums are on `u64`; the second wraps in a release
-- build.
unfoldable pub generate_msg_id : ℕ → Reading → ℕ × ℕ
generate_msg_id counter now = ((timestamp now + counter) % 2 ^ 64, (counter + 1) % 2 ^ 64)

unfoldable pub build_header : FrameType → ℕ → FrameFlags → ℕ → Header
build_header frame_type payload_length flags msg_id =
    header_new frame_type msg_kind_event payload_length msg_id flags

-- The header's bytes, then the payload.
unfoldable pub build_frame : FrameType → Bytes → FrameFlags → ℕ → Bytes
unfolding build_header
build_frame frame_type payload flags msg_id =
    encode (build_header frame_type (length payload % 2 ^ 32) flags msg_id) ++ payload

-- What `send_frame` returns and leaves behind.
pub record Sent (Chan : Type 0) : Type 0 where
  pub result : MipResult ℕ
  pub tx : Option Chan
  pub counter : ℕ

module _ {Chan : Type 0} (mpsc : Mpsc Chan) where
  -- The outcome of `try_send`; its error is not looked at.
  unfoldable pub queue_frame : Chan → ℕ → ℕ → Option Chan → Sent Chan
  queue_frame c msg_id counter none = record {
    result = err MipError.not_connected;
    tx = some c;
    counter = counter;
  }
  queue_frame c msg_id counter (some d) = record {
    result = ok msg_id;
    tx = some d;
    counter = counter;
  }

  -- `tx.send(command).await`, whose error is dropped: on a closed channel nothing is sent, and on a
  -- full one the task waits (`none`).
  unfoldable pub send_await : Chan → ClientCommand → Option Chan
  send_await c x = if mpsc.is_closed c then some c else mpsc.try_send c x

  unfoldable pub send_frame :
      Option Chan → Bool → ℕ → Reading → FrameType → Bytes → FrameFlags → Sent Chan
  unfolding queue_frame generate_msg_id build_frame
  send_frame none connected counter now frame_type payload flags = record {
    result = err MipError.not_connected;
    tx = none;
    counter = counter;
  }
  send_frame (some c) connected counter now frame_type payload flags =
      if not connected
      then record { result = err MipError.not_connected; tx = some c; counter = counter }
      else (let (msg_id, counter') = generate_msg_id counter now in
          queue_frame c msg_id counter'
            (mpsc.try_send c (send (build_frame frame_type payload flags msg_id))))
