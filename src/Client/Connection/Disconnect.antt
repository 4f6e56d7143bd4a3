-- ===== src/Client/Connection/Disconnect.antt =====
-- What `disconnect` leaves behind, and what the write task then writes (mod.rs, internals.rs).
use mip_clients.Common.{ℕ, ◌≡◌, refl, Bool, true, false, Option, none, some, if◌then◌else◌}
use mip_clients.Protocol.{FrameType, no_flags, encode}
use mip_clients.Client.Sending.{ClientCommand, send, Mpsc, Reading, generate_msg_id, build_header}
use mip_clients.Client.State.{MipClient}
use std.Path.{subst}
use mip_clients.Client.Sending.Queueing.{IsReady}
use mip_clients.Client.Api.{World, tx_channel}
use mip_clients.Client.Api.Outcomes.{CanSend}
use mip_clients.Client.Connection.{
  send_to, send_found, put_back, send_close_internal, send_disconnect, disconnect_client,
  disconnect_begin, disconnect_end, disconnect_finish, disconnect_close, cleanup_tasks,
}

-- Not running, and not to reconnect.
pub record IsOff (c : MipClient) : Type 0 where
  pub running : c.running ≡ false
  pub auto_reconnect : c.options.auto_reconnect ≡ false

module _ {Chan : Type 0} (mpsc : Mpsc Chan) where
  -- A world that there is.
  abbrev Off : Option (World Chan) → Type 0
  Off none = Unit
  Off (some w) = IsOff w.client

  Off-put_back : (w : World Chan) (o : Option Chan) → IsOff w.client → Off (put_back mpsc w o)
  unfolding put_back
  Off-put_back w none h = tt
  Off-put_back w (some d) h = record { running = h.running; auto_reconnect = h.auto_reconnect }

  Off-send_found :
      (w : World Chan) (o : Option Chan) (x : ClientCommand)
      → IsOff w.client
      → Off (send_found mpsc w o x)
  unfolding send_found
  Off-send_found w none x h = h
  Off-send_found w (some c) x h = Off-put_back w _ h

  Off-send_to : (w : World Chan) (x : ClientCommand) → IsOff w.client → Off (send_to mpsc w x)
  unfolding send_to
  Off-send_to w x h = Off-send_found w _ x h

  Off-send_disconnect : (o : Option (World Chan)) → Off o → Off (send_disconnect mpsc o)
  unfolding send_disconnect
  Off-send_disconnect none h = tt
  Off-send_disconnect (some w) h = Off-send_to w ClientCommand.disconnect h

  Off-if : (b : Bool) (x y : Option (World Chan)) → Off x → Off y → Off (if b then x else y)
  Off-if true x y hx hy = hx
  Off-if false x y hx hy = hy

  Off-send_close_internal :
      (w : World Chan) (now : Reading) → IsOff w.client → Off (send_close_internal mpsc w now)
  unfolding send_close_internal
  Off-send_close_internal w now h =
      Off-if w.client.connected _ (some w)
        (Off-send_to
          (record w {
            client = record w.client {
              msg_id_counter = (generate_msg_id w.client.msg_id_counter now).1;
            };
          })
          (send (
            encode (
              build_header FrameType.close 0 no_flags
                (generate_msg_id w.client.msg_id_counter now).0)))
          (record { running = h.running; auto_reconnect = h.auto_reconnect }))
        h

  Off-disconnect_close :
      (w : World Chan) (now : Reading) (tx : Option ℕ)
      → IsOff w.client
      → Off (disconnect_close mpsc w now tx)
  unfolding disconnect_close
  Off-disconnect_close w now none h = h
  Off-disconnect_close w now (some i) h =
      Off-send_disconnect (send_close_internal mpsc w now) (Off-send_close_internal w now h)

  -- The client is off, not connected, and has no sender and no tasks.
  pub record IsDisconnected (w : World Chan) : Type 0 where
    pub off : IsOff w.client
    pub connected : w.client.connected ≡ false
    pub sender : w.client.command_tx ≡ none
    pub read_task : w.client.read_task ≡ none
    pub write_task : w.client.write_task ≡ none
    pub ping_task : w.client.ping_task ≡ none

  finished :
      (o : Option (World Chan)) (w' : World Chan)
      → Off o
      → disconnect_finish mpsc o ≡ some w'
      → IsDisconnected w'
  unfolding disconnect_finish disconnect_end cleanup_tasks
  finished none w' h e = cc
  finished (some w) w' h e =
      let last : record w { client = disconnect_end mpsc w.client } ≡ w' = cc in
      subst IsDisconnected last (record {
        off = record { running = h.running; auto_reconnect = h.auto_reconnect };
        connected = refl;
        sender = refl;
        read_task = refl;
        write_task = refl;
        ping_task = refl;
      })

  no_sender : (w : World Chan) → w.client.command_tx ≡ none → ¬ CanSend mpsc w
  no_sender w e h =
      absurd (subst (λ tx. IsReady mpsc (tx_channel w.channels tx) w.client.connected) e h)

  -- `disconnect`, from any state, on returning leaves the client not connected, not running, not to
  -- reconnect, without sender and tasks: nothing can be sent on it.
  pub disconnect_client-IsDisconnected :
      (w w' : World Chan) (now : Reading)
      → disconnect_client mpsc w now ≡ some w'
      → IsDisconnected w' × (¬ CanSend mpsc w')
  unfolding disconnect_client
  disconnect_client-IsDisconnected w w' now e =
      let last =
        finished
          (disconnect_close mpsc (record w { client = disconnect_begin mpsc w.client }) now
            w.client.command_tx)
          w'
          (Off-disconnect_close (record w { client = disconnect_begin mpsc w.client }) now
            w.client.command_tx
            (unfold disconnect_begin in record { running = refl; auto_reconnect = refl }))
          e in
      (last, no_sender w' last.sender)
