-- ===== src/Client/Api.antt =====
-- The public sending methods of `MIPClient` (mip-client-rust/src/client/mod.rs).
pub mod Outcomes
pub mod EndToEnd
use mip_clients.Common.{
  ℕ, Bool, true, false, Bytes, Text, as_bytes, List, [], Option, none, some, get_elem?, set,
  if◌then◌else◌,
}
use mip_clients.Protocol.{FrameType, FrameFlags, no_flags, ack_required}
use mip_clients.Client.Types.{MipResult}
use mip_clients.Client.Message.{publish_payload}
use mip_clients.Client.Sending.{Mpsc, Reading, Sent, send_frame}
use mip_clients.Client.State.{MipClient}

-- The client, and the channels that its senders name, in the order of their making.
pub record World (Chan : Type 0) : Type 0 where
  pub client : MipClient
  pub channels : List Chan

-- The channel behind `command_tx`.
abbrev pub tx_channel {ℓ} : {A : Type ℓ} → List A → Option ℕ → Option A
tx_channel channels none = none
tx_channel channels (some i) = get_elem? channels i

abbrev pub store_channel {ℓ} : {A : Type ℓ} → List A → Option ℕ → Option A → List A
store_channel channels (some i) (some c) = set channels i c
store_channel channels none (some c) = channels
store_channel channels tx none = channels

module _ {Chan : Type 0} (mpsc : Mpsc Chan) where
  -- `send_frame(self.command_tx.as_ref(), &self.connected, &self.msg_id_counter, ..)`
  unfoldable pub send_raw_frame :
      World Chan → Reading → FrameType → Bytes → FrameFlags → MipResult ℕ × World Chan
  send_raw_frame w now frame_type payload flags =
      let s =
        send_frame mpsc (tx_channel w.channels w.client.command_tx) w.client.connected
          w.client.msg_id_counter now frame_type payload flags in
      (
        s.result,
        record {
          client = record w.client { msg_id_counter = s.counter };
          channels = store_channel w.channels w.client.command_tx s.tx;
        },
      )

  abbrev ack_flags : Bool → FrameFlags
  ack_flags require_ack = if require_ack then ack_required else no_flags

  unfoldable pub subscribe : World Chan → Reading → Text → Bool → MipResult ℕ × World Chan
  unfolding send_raw_frame
  subscribe w now topic require_ack =
      send_raw_frame w now FrameType.subscribe (as_bytes topic) (ack_flags require_ack)

  unfoldable pub unsubscribe : World Chan → Reading → Text → Bool → MipResult ℕ × World Chan
  unfolding send_raw_frame
  unsubscribe w now topic require_ack =
      send_raw_frame w now FrameType.unsubscribe (as_bytes topic) (ack_flags require_ack)

  unfoldable pub publish :
      World Chan → Reading → Text → Text → FrameFlags → MipResult ℕ × World Chan
  unfolding send_raw_frame publish_payload
  publish w now topic message flags =
      send_raw_frame w now FrameType.publish (publish_payload topic message) flags

  unfoldable pub ping : World Chan → Reading → MipResult ℕ × World Chan
  unfolding send_raw_frame
  ping w now = send_raw_frame w now FrameType.ping [] no_flags
