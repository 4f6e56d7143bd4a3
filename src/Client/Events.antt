-- ===== src/Client/Events.antt =====
-- mip-client-rust/src/client/events.rs: the registered callbacks. A callback is known by a number;
-- what the client does with it is the list of the calls that it makes, in their order.
use mip_clients.Common.{ℕ, Bytes, List, [], map}
use mip_clients.Protocol.{Header}
use mip_clients.Client.Types.{MipError, MipMessage}

-- An `Arc<dyn Fn(..)>`.
abbrev pub Callback : Type 0
Callback = ℕ

pub record Callbacks : Type 0 where
  pub on_connect : List Callback
  pub on_disconnect : List Callback
  pub on_reconnecting : List Callback
  pub on_message : List Callback
  pub on_event : List Callback
  pub on_ack : List Callback
  pub on_pong : List Callback
  pub on_error : List Callback
  pub on_frame : List Callback

abbrev pub default_callbacks : Callbacks
default_callbacks = record {
  on_connect = [];
  on_disconnect = [];
  on_reconnecting = [];
  on_message = [];
  on_event = [];
  on_ack = [];
  on_pong = [];
  on_error = [];
  on_frame = [];
}

-- One call of a callback, with its arguments.
pub data Call : Type 0 where
  connect : Callback → Call
  disconnect : Callback → Call
  reconnecting : ℕ → Callback → Call
  message : MipMessage → Callback → Call
  event : MipMessage → Callback → Call
  ack : ℕ → Callback → Call
  pong : Callback → Call
  error : MipError → Callback → Call
  frame : Header → Bytes → Callback → Call

-- `for callback in &cbs.on_error { callback(e) }`
unfoldable pub emit_error : Callbacks → MipError → List Call
emit_error cbs e = map (Call.error e) cbs.on_error
