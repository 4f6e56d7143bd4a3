-- ===== src/Client/System.antt =====
-- The client with its tasks, as one system: the methods of `MIPClient` and the tasks that `connect`
-- spawns (mip-client-rust/src/client/mod.rs and internals.rs), in any order. An event is what happens
-- next: a method is called, or a part of the system that waits goes on to its next wait, with what the
-- network and the clock answer. An event for a part that does not wait for it changes nothing.
pub mod State
pub mod Accepted
pub mod AllAt
pub mod Channels
pub mod WriteTurns
pub mod Recorded
pub mod Wire
pub mod Calmer
pub mod Facts
pub mod Sound
pub mod Room
pub mod Sends
pub mod Turns
pub mod Returns
pub mod Quiet
pub mod Farewells
pub mod Calls
pub mod ConnectCall
pub mod DisconnectCall
use mip_clients.Common.{
  ℕ, Bool, true, false, not, ◌&&◌, ◌||◌, ◌==◌, Bytes, List, [], ◌∷◌, ◌++◌, Option, none, some,
  if◌then◌else◌, get_elem?, set, length,
}
use mip_clients.Protocol.{Bitflags, FrameType, FrameFlags, encode}
use mip_clients.Client.Types.{MipClientOptions}
use mip_clients.Client.Events.{Callback, Call}
use mip_clients.Client.Sending.{
  ClientCommand, send, disconnect, Mpsc, Receiver, Reading, generate_msg_id,
}
use mip_clients.Client.State.{MipClient, client_new, drop_client, EventKind, register}
use mip_clients.Client.Api.{World, send_raw_frame}
use mip_clients.Client.Tasks.{
  ReadPhase, ReadResult, read_step, Writer, WriteResult, write_step, PingPhase, spawn_ping_task,
  ping_step,
}
use mip_clients.Client.System.State.{
  UserPhase, free, dialling, greeting, closing, sending, leaving, cleaning, dropped, System, Event,
  read, write, ping, on, send_raw, connect, dialled, greet, disconnect_called, close, delivered,
  finish, drop, update, update_at, spawned, new_system, pinger_of, is_stopped, names,
}
use mip_clients.Client.Connection.{
  Dialled, close_frame, connect_open, connect_hello, send_to, disconnect_begin, disconnect_end,
}

module _ {Chan : Type 0} where
  abbrev pub with_client : System Chan → MipClient → System Chan
  with_client s c = record s { world = record s.world { client = c } }

  abbrev pub with_channel : System Chan → ℕ → Chan → System Chan
  with_channel s i d = record s { world = record s.world { channels = set s.world.channels i d } }

  -- The client, or the ping task, holds a sender of the connection.
  abbrev pub has_sender : System Chan → ℕ → Bool
  has_sender s i = names s.world.client.command_tx i || not (is_stopped (s.pingers i))

module _ {Chan : Type 0} {mpsc : Mpsc Chan} (receiver : Receiver mpsc) where
  -- An empty channel without senders ends the `while let`.
  pub write_or_end :
      Bool → Option (ClientCommand × Chan) → Writer → Chan → WriteResult → Writer × Chan
  unfolding write_step
  write_or_end true none t c r = (t, c)
  write_or_end false none t c r = (record t { active = false }, receiver.drop_receiver c)
  write_or_end senders (some _) t c r = write_step receiver t c r

  unfoldable pub write_task : Bool → Writer → Chan → WriteResult → Writer × Chan
  unfolding write_or_end
  write_task senders t c r =
      if t.active then write_or_end senders (receiver.recv c) t c r else (t, c)

module _ {Chan : Type 0} (bitflags : Bitflags) (mpsc : Mpsc Chan) (receiver : Receiver mpsc) where
  pub read_turn : System Chan → ℕ → ReadResult → System Chan
  unfolding read_step
  read_turn s i r =
      let (phase, c, calls) = read_step bitflags s.world.client (s.readers i) r in
      record (with_client s c) { readers = update s.readers i phase; calls = s.calls ++ calls }

  pub write_turn : System Chan → ℕ → WriteResult → Option Chan → System Chan
  unfolding write_task
  write_turn s i r none = s
  write_turn s i r (some c) =
      let (t, d) = write_task receiver (has_sender s i) (s.writers i) c r in
      record (with_channel s i d) { writers = update s.writers i t }

  pub ping_turn : System Chan → ℕ → Reading → Option Chan → System Chan
  unfolding ping_step
  ping_turn s i now none = s
  ping_turn s i now (some chan) =
      let (phase, c, d) = ping_step mpsc (s.pingers i, s.world.client, chan) now in
      record (with_channel (with_client s c) i d) { pingers = update s.pingers i phase }

  pub register_turn : UserPhase → System Chan → EventKind → Callback → System Chan
  unfolding register
  register_turn free s kind f = with_client s (register kind s.world.client f)
  register_turn _ s kind f = s

  pub send_turn : UserPhase → System Chan → Reading → FrameType → Bytes → FrameFlags → System Chan
  unfolding send_raw_frame
  send_turn free s now t p f = record s { world = (send_raw_frame mpsc s.world now t p f).1 }
  send_turn _ s now t p f = s

  -- `connect` up to the dial.
  pub connect_turn : UserPhase → System Chan → System Chan
  connect_turn free s =
      if s.world.client.connected
      then s
      else record (with_client s (record s.world.client { running = true })) { user = dialling }
  connect_turn _ s = s

  -- The tasks of the new connection are spawned, and the connect callbacks called.
  pub opened : System Chan → System Chan
  unfolding connect_open
  opened s =
      let i = length s.world.channels in
      let (w, calls) = connect_open mpsc s.world in
      record {
        world = w;
        user = greeting;
        readers = update s.readers i (ReadPhase.checking []);
        writers = update s.writers i spawned;
        pingers =
            update s.pingers i
              (pinger_of (spawn_ping_task s.world.client.options.ping_interval_ms));
        calls = s.calls ++ calls;
      }

  pub dialled_turn : UserPhase → System Chan → Dialled → System Chan
  unfolding opened
  dialled_turn dialling s (some e) = record s { user = free }
  dialled_turn dialling s none = opened s
  dialled_turn _ s d = s

  pub greet_turn : UserPhase → System Chan → Reading → System Chan
  unfolding connect_hello
  greet_turn greeting s now = record s { world = (connect_hello mpsc s.world now).1; user = free }
  greet_turn _ s now = s

  pub disconnect_turn : UserPhase → System Chan → System Chan
  unfolding disconnect_begin
  disconnect_turn free s = record (with_client s (disconnect_begin mpsc s.world.client)) {
    user = closing;
  }
  disconnect_turn _ s = s

  -- The ping task is aborted, and the write task waited for.
  pub cleaned : System Chan → System Chan
  cleaned s = record s {
    user = cleaning;
    pingers = update_at s.pingers s.world.client.ping_task PingPhase.stopped;
  }

  -- `send_close_internal` up to its `send`, if there is a sender.
  pub close_on : Option ℕ → System Chan → Reading → System Chan
  unfolding cleaned generate_msg_id
  close_on none s now = cleaned s
  close_on (some i) s now =
      if s.world.client.connected
      then (let (id, counter) = generate_msg_id s.world.client.msg_id_counter now in
          record (with_client s (record s.world.client { msg_id_counter = counter })) {
            user = sending (close_frame id);
          })
      else record s { user = leaving }

  pub close_turn : UserPhase → System Chan → Reading → System Chan
  unfolding close_on
  close_turn closing s now = close_on s.world.client.command_tx s now
  close_turn _ s now = s

  -- A `send` ends, or waits for room.
  pub sent : Option (World Chan) → System Chan → System Chan → System Chan
  sent none s s' = s
  sent (some w) s s' = record s' { world = w }

  pub delivered_turn : UserPhase → System Chan → System Chan
  unfolding sent cleaned send_to
  delivered_turn (sending frame) s =
      sent (send_to mpsc s.world (send frame)) s (record s { user = leaving })
  delivered_turn leaving s = sent (send_to mpsc s.world disconnect) s (cleaned s)
  delivered_turn _ s = s

  -- The write task has ended, or 500 ms have passed; the read task is aborted.
  pub finish_turn : UserPhase → System Chan → System Chan
  unfolding disconnect_end
  finish_turn cleaning s = record (with_client s (disconnect_end mpsc s.world.client)) {
    user = free;
    readers = update_at s.readers s.world.client.read_task ReadPhase.ended;
  }
  finish_turn _ s = s

  -- The fields go with the client: its sender, and the handles, which leaves the tasks running.
  pub drop_turn : UserPhase → System Chan → System Chan
  unfolding drop_client
  drop_turn free s =
      record (with_client s (record (drop_client s.world.client) {
        command_tx = none;
        read_task = none;
        write_task = none;
        ping_task = none;
      })) { user = dropped }
  drop_turn _ s = s

  unfoldable pub step : System Chan → Event → System Chan
  unfolding read_turn write_turn ping_turn register_turn send_turn connect_turn dialled_turn
      greet_turn disconnect_turn close_turn delivered_turn finish_turn drop_turn
  step s (read i r) = read_turn s i r
  step s (write i r) = write_turn s i r (get_elem? s.world.channels i)
  step s (ping i now) = ping_turn s i now (get_elem? s.world.channels i)
  step s (on kind f) = register_turn s.user s kind f
  step s (send_raw now t p f) = send_turn s.user s now t p f
  step s connect = connect_turn s.user s
  step s (dialled d) = dialled_turn s.user s d
  step s (greet now) = greet_turn s.user s now
  step s disconnect_called = disconnect_turn s.user s
  step s (close now) = close_turn s.user s now
  step s delivered = delivered_turn s.user s
  step s finish = finish_turn s.user s
  step s drop = drop_turn s.user s

  unfoldable pub run : System Chan → List Event → System Chan
  run s [] = s
  run s (e ∷ es) = run (step s e) es

  -- What can be reached from a new client.
  pub data Reach (options : MipClientOptions) : System Chan → Type 0 where
    start : Reach options (new_system options)
    later : {s : System Chan} → Reach options s → (e : Event) → Reach options (step s e)

  pub Reach-run :
      {options : MipClientOptions} (es : List Event) {s : System Chan}
      → Reach options s
      → Reach options (run s es)
  unfolding run
  Reach-run [] r = r
  Reach-run (e ∷ es) r = Reach-run es (later r e)
