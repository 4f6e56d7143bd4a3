-- ===== src/Client/State.antt =====
-- The `MIPClient` of mip-client-rust/src/client/mod.rs: its fields, its constructors, the registration
-- of callbacks, and the helpers at the end of that file.
use mip_clients.Common.{ℕ, Bool, false, Text, ascii, [], ◌∷◌, ◌++◌, Option, none}
use mip_clients.Protocol.{FrameType}
use mip_clients.Client.Types.{MipClientOptions, default_options}
use mip_clients.Client.Events.{Callback, Callbacks, default_callbacks}

-- A channel and a task are known by numbers: the sender in `command_tx` and the join handles name
-- what the tasks share with the client.
pub record MipClient : Type 0 where
  pub client_id : Text
  pub options : MipClientOptions
  pub connected : Bool
  pub running : Bool
  pub msg_id_counter : ℕ
  pub reconnect_attempts : ℕ
  pub callbacks : Callbacks
  pub command_tx : Option ℕ
  pub read_task : Option ℕ
  pub write_task : Option ℕ
  pub ping_task : Option ℕ

unfoldable pub client_new : MipClientOptions → MipClient
client_new options = record {
  client_id = options.client_id;
  options = options;
  connected = false;
  running = false;
  msg_id_counter = 0;
  reconnect_attempts = 0;
  callbacks = default_callbacks;
  command_tx = none;
  read_task = none;
  write_task = none;
  ping_task = none;
}

unfoldable pub create_client : MipClient
unfolding client_new
create_client = client_new default_options

pub is_connected : MipClient → Bool
is_connected c = c.connected

-- `Drop`
unfoldable pub drop_client : MipClient → MipClient
drop_client c = record c { running = false }

-- The list of callbacks that a registration appends to.
pub data EventKind : Type 0 where
  on_connect on_disconnect on_reconnecting on_message on_event on_ack on_pong on_error on_frame :
      EventKind

-- `callbacks.write().await.<list>.push(callback)`, for the nine registration methods.
unfoldable pub push_callback : EventKind → Callbacks → Callback → Callbacks
push_callback on_connect cbs f = record cbs { on_connect = cbs.on_connect ++ (f ∷ []) }
push_callback on_disconnect cbs f = record cbs { on_disconnect = cbs.on_disconnect ++ (f ∷ []) }
push_callback on_reconnecting cbs f = record cbs {
  on_reconnecting = cbs.on_reconnecting ++ (f ∷ []);
}
push_callback on_message cbs f = record cbs { on_message = cbs.on_message ++ (f ∷ []) }
push_callback on_event cbs f = record cbs { on_event = cbs.on_event ++ (f ∷ []) }
push_callback on_ack cbs f = record cbs { on_ack = cbs.on_ack ++ (f ∷ []) }
push_callback on_pong cbs f = record cbs { on_pong = cbs.on_pong ++ (f ∷ []) }
push_callback on_error cbs f = record cbs { on_error = cbs.on_error ++ (f ∷ []) }
push_callback on_frame cbs f = record cbs { on_frame = cbs.on_frame ++ (f ∷ []) }

unfoldable pub register : EventKind → MipClient → Callback → MipClient
unfolding push_callback
register kind c f = record c { callbacks = push_callback kind c.callbacks f }

unfoldable pub get_frame_type_name : FrameType → Text
get_frame_type_name FrameType.hello = ascii "HELLO"
get_frame_type_name FrameType.subscribe = ascii "SUBSCRIBE"
get_frame_type_name FrameType.unsubscribe = ascii "UNSUBSCRIBE"
get_frame_type_name FrameType.publish = ascii "PUBLISH"
get_frame_type_name FrameType.event = ascii "EVENT"
get_frame_type_name FrameType.ack = ascii "ACK"
get_frame_type_name FrameType.error = ascii "ERROR"
get_frame_type_name FrameType.ping = ascii "PING"
get_frame_type_name FrameType.pong = ascii "PONG"
get_frame_type_name FrameType.close = ascii "CLOSE"
