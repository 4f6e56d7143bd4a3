-- ===== src/Client/Connection.antt =====
-- `connect` and `disconnect` of mip-client-rust/src/client/mod.rs, `send_close_internal` and
-- `cleanup_tasks` of mip-client-rust/src/client/internals.rs. Each is a sequence of parts; that
-- the spawned tasks may run between them is left out.
pub mod Laws
pub mod Disconnect
pub mod Goodbye
pub mod Session
use mip_clients.Common.{
  ℕ, zero, suc, ◌+◌, ◌/◌, ◌%◌, Bool, true, false, Bytes, Text, as_bytes, List, [], ◌∷◌, ◌++◌, map,
  Option, none, some, Result, ok, err, if◌then◌else◌, ltb, length, replicate,
}
use mip_clients.Protocol.{FrameType, no_flags, encode}
use mip_clients.Client.Types.{MipError, MipResult, MipClientOptions}
use mip_clients.Client.Events.{Call}
use mip_clients.Client.Sending.{
  ClientCommand, send, Mpsc, Reading, generate_msg_id, build_header, send_await,
}
use mip_clients.Client.State.{MipClient}
use mip_clients.Client.Api.{World, tx_channel, store_channel, send_raw_frame}

-- `to_string` of a `u64`, which has 20 digits at most.
abbrev decimal_digits : ℕ → ℕ → Text
decimal_digits zero n = []
decimal_digits (suc fuel) n =
    let front = decimal_digits fuel (n / 10) in
    if ltb n 10 then (48 + n) ∷ [] else front ++ ((48 + n % 10) ∷ [])

unfoldable pub decimal : ℕ → Text
decimal n = decimal_digits 20 n

-- What `TcpStream::connect` answers: a stream, or the text of the error.
abbrev pub Dialled : Type 0
Dialled = Option Text

-- The frame that `send_close_internal` sends.
abbrev pub close_frame : ℕ → Bytes
close_frame id = encode (build_header FrameType.close 0 no_flags id)

module _ {Chan : Type 0} (mpsc : Mpsc Chan) where
  -- From the stream to the connect callbacks: a new channel of 100 places, the flags, and the tasks,
  -- named by the channel's number. A ping task is spawned for an interval other than 0.
  unfoldable pub connect_open : World Chan → World Chan × List Call
  connect_open w =
      let id = length w.channels in
      (
        record {
          client = record w.client {
            command_tx = some id;
            connected = true;
            reconnect_attempts = 0;
            read_task = some id;
            write_task = some id;
            ping_task = if ltb 0 w.client.options.ping_interval_ms then some id else none;
          };
          channels = w.channels ++ (mpsc.channel 100 ∷ []);
        },
        map Call.connect w.client.callbacks.on_connect,
      )

  -- What follows HELLO: its id becomes the client's id, or the connection is given up.
  unfoldable pub hello_sent : MipResult ℕ → World Chan → MipResult (Unit {0}) × World Chan
  hello_sent (ok id) w = (ok tt, record w { client = record w.client { client_id = decimal id } })
  hello_sent (err e) w =
      (err e, record w { client = record w.client { connected = false; running = false } })

  -- HELLO with the configured client id, if there is a sender.
  unfoldable pub connect_hello_on :
      Option ℕ → World Chan → Reading → MipResult (Unit {0}) × World Chan
  unfolding hello_sent send_raw_frame
  connect_hello_on none w now = (ok tt, w)
  connect_hello_on (some tx) w now =
      let out =
        send_raw_frame mpsc w now FrameType.hello (as_bytes w.client.options.client_id) no_flags in
      hello_sent out.0 out.1

  unfoldable pub connect_hello : World Chan → Reading → MipResult (Unit {0}) × World Chan
  unfolding connect_hello_on
  connect_hello w now = connect_hello_on w.client.command_tx w now

  -- `connect`, with nothing else at work between its parts.
  unfoldable pub connect :
      World Chan → Dialled → Reading → MipResult (Unit {0}) × World Chan × List Call
  unfolding connect_open connect_hello
  connect w dialled now =
      if w.client.connected
      then (ok tt, w, [])
      else (let w' = record w { client = record w.client { running = true } } in
          elim dialled [
            | some e ↦ (err (MipError.connection e), w', [])
            | none ↦
                let (opened, calls) = connect_open w' in
                let (result, last) = connect_hello opened now in (result, last, calls)
          ])

  -- The world with a channel put back; `none` waits for room.
  unfoldable pub put_back : World Chan → Option Chan → Option (World Chan)
  put_back w none = none
  put_back w (some d) =
      some (record w { channels = store_channel w.channels w.client.command_tx (some d) })

  unfoldable pub send_found : World Chan → Option Chan → ClientCommand → Option (World Chan)
  unfolding put_back
  send_found w none command = some w
  send_found w (some c) command = put_back w (send_await mpsc c command)

  -- `tx.send(command).await` on the client's sender, if it has one.
  unfoldable pub send_to : World Chan → ClientCommand → Option (World Chan)
  unfolding send_found
  send_to w command = send_found w (tx_channel w.channels w.client.command_tx) command

  -- CLOSE with a fresh id, while connected.
  unfoldable pub send_close_internal : World Chan → Reading → Option (World Chan)
  unfolding send_to
  send_close_internal w now =
      if w.client.connected
      then (let (id, counter) = generate_msg_id w.client.msg_id_counter now in
          send_to (record w { client = record w.client { msg_id_counter = counter } })
            (send (close_frame id)))
      else some w

  -- The join handles are taken: the ping and read tasks are aborted, the write task is waited for.
  unfoldable pub cleanup_tasks : MipClient → MipClient
  cleanup_tasks c = record c { ping_task = none; read_task = none; write_task = none }

  -- `let _ = tx.send(ClientCommand::Disconnect).await`, behind CLOSE.
  unfoldable pub send_disconnect : Option (World Chan) → Option (World Chan)
  unfolding send_to
  send_disconnect none = none
  send_disconnect (some w) = send_to w ClientCommand.disconnect

  unfoldable pub disconnect_close : World Chan → Reading → Option ℕ → Option (World Chan)
  unfolding send_close_internal send_disconnect
  disconnect_close w now none = some w
  disconnect_close w now (some i) = send_disconnect (send_close_internal w now)

  unfoldable pub disconnect_begin : MipClient → MipClient
  disconnect_begin c = record c {
    options = record c.options { auto_reconnect = false };
    running = false;
  }

  unfoldable pub disconnect_end : MipClient → MipClient
  unfolding cleanup_tasks
  disconnect_end c = record (cleanup_tasks c) { connected = false; command_tx = none }

  unfoldable pub disconnect_finish : Option (World Chan) → Option (World Chan)
  unfolding disconnect_end
  disconnect_finish none = none
  disconnect_finish (some w) = some (record w { client = disconnect_end w.client })

  -- `disconnect`, with nothing else at work between its parts; `none` waits for room in the channel.
  unfoldable pub disconnect_client : World Chan → Reading → Option (World Chan)
  unfolding disconnect_close disconnect_begin disconnect_finish
  disconnect_client w now =
      disconnect_finish
        (disconnect_close (record w { client = disconnect_begin w.client }) now w.client.command_tx)
