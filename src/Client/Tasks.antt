-- ===== src/Client/Tasks.antt =====
-- The three tasks that `connect` spawns: `spawn_read_task`, `spawn_write_task` and `spawn_ping_task` of
-- mip-client-rust/src/client/internals.rs. A task is a phase, which says at which wait it stands, and a
-- step from one wait to the next; what the network, the clock and the channel answer are arguments.
pub mod Writes
pub mod Disconnects
pub mod Pings
pub mod Visits
pub mod Reconnects
use mip_clients.Common.{
  ℕ, suc, ◌+◌, ◌%◌, ◌^◌, Bool, true, false, not, ◌&&◌, ◌||◌, Bytes, List, [], ◌∷◌, ◌++◌, map,
  Option, none, some, if◌then◌else◌, ◌==◌, leb, take,
}
use mip_clients.Protocol.{Bitflags, FrameType, no_flags, encode}
use mip_clients.Client.Types.{MipError, IoErrorKind, MipClientOptions}
use mip_clients.Client.Events.{Callbacks, Call, emit_error}
use mip_clients.Client.Stream.{handle_data}
use mip_clients.Client.Sending.{
  ClientCommand, send, disconnect, Mpsc, Receiver, Reading, generate_msg_id, build_header,
  send_await,
}
use mip_clients.Client.State.{MipClient}

-- What `read` answers.
pub data ReadResult : Type 0 where
  eof : ReadResult
  got : Bytes → ReadResult
  failed : IoErrorKind → ReadResult

-- At the test of `running`, in `read`, behind the loop, before the reconnect decision, in `sleep`, and
-- at the end.
pub data ReadPhase : Type 0 where
  checking : Bytes → ReadPhase
  reading : Bytes → ReadPhase
  closing : ReadPhase
  deciding : ReadPhase
  sleeping : ℕ → ReadPhase
  ended : ReadPhase

-- A step of a task leaves its next phase, the client, and the calls that it made.
abbrev pub Stepped : Type 0 → Type 0
Stepped Phase = Phase × MipClient × List Call

-- After `handle_data` the loop goes round.
unfoldable pub received : MipClient → Option (Bytes × List Call) → Stepped ReadPhase
received c none = (ended, c, [])
received c (some (buffer, calls)) = (checking buffer, c, calls)

read_result : Bitflags → MipClient → Bytes → ReadResult → Stepped ReadPhase
unfolding received emit_error
read_result bitflags c buffer eof = (closing, c, [])
read_result bitflags c buffer (got chunk) =
    received c (handle_data bitflags c.callbacks (buffer ++ chunk))
read_result bitflags c buffer (failed kind) =
    (closing, c, emit_error c.callbacks (MipError.io kind))

-- `connected.swap(false)`, and the callbacks if it was true.
read_close : MipClient → Stepped ReadPhase
read_close c = (
  deciding,
  record c { connected = false },
  if c.connected then map Call.disconnect c.callbacks.on_disconnect else [],
)

-- `fetch_add(1) as u32 + 1`
abbrev attempt : MipClient → ℕ
attempt c = (c.reconnect_attempts % 2 ^ 32 + 1) % 2 ^ 32

read_attempt : MipClient → Stepped ReadPhase
unfolding emit_error
read_attempt c =
    let counted = record c { reconnect_attempts = (c.reconnect_attempts + 1) % 2 ^ 64 } in
    let limit = c.options.max_reconnect_attempts in
    if limit == 0 || leb (attempt c) limit
    then (
      sleeping c.options.reconnect_delay_ms,
      counted,
      map (Call.reconnecting (attempt c)) c.callbacks.on_reconnecting,
    )
    else (ended, counted, emit_error c.callbacks (MipError.max_reconnect_attempts limit))

read_decide : MipClient → Stepped ReadPhase
unfolding read_attempt
read_decide c = if c.options.auto_reconnect && c.running then read_attempt c else (ended, c, [])

-- A step of the read task; the answer of `read` counts in the phase `reading` only.
unfoldable pub read_step : Bitflags → MipClient → ReadPhase → ReadResult → Stepped ReadPhase
unfolding read_result read_close read_decide
read_step bitflags c (checking buffer) r = (if c.running then reading buffer else closing, c, [])
read_step bitflags c (reading buffer) r = read_result bitflags c buffer r
read_step bitflags c closing r = read_close c
read_step bitflags c deciding r = read_decide c
read_step bitflags c (sleeping delay) r = (ended, c, [])
read_step bitflags c ended r = (ended, c, [])

-- What `write_all` answers; a failing one may have written a part.
pub data WriteResult : Type 0 where
  wrote_all : WriteResult
  wrote_part : ℕ → WriteResult

-- The bytes that left through the socket, whether its write side is shut down, and whether the task
-- still runs.
pub record Writer : Type 0 where
  pub written : Bytes
  pub shut : Bool
  pub active : Bool

module _ {Chan : Type 0} {mpsc : Mpsc Chan} (receiver : Receiver mpsc) where
  -- One command. A task that ends drops the receiver.
  unfoldable pub write_command : Writer → Chan → ClientCommand → WriteResult → Writer × Chan
  write_command t c (send bytes) wrote_all = (record t { written = t.written ++ bytes }, c)
  write_command t c (send bytes) (wrote_part n) =
      (record t { written = t.written ++ take n bytes; active = false }, receiver.drop_receiver c)
  write_command t c disconnect r =
      (record t { shut = true; active = false }, receiver.drop_receiver c)

  -- With nothing to receive the task waits.
  write_received : Writer → Chan → Option (ClientCommand × Chan) → WriteResult → Writer × Chan
  unfolding write_command
  write_received t c none r = (t, c)
  write_received t c (some (x, d)) r = write_command t d x r

  unfoldable pub write_step : Writer → Chan → WriteResult → Writer × Chan
  unfolding write_received
  write_step t c r = if t.active then write_received t c (receiver.recv c) r else (t, c)

-- Between ticks, in `send`, and at the end.
pub data PingPhase : Type 0 where
  ticking : PingPhase
  pinging : Bytes → PingPhase
  stopped : PingPhase

-- `interval_ms == 0` spawns no task.
unfoldable pub spawn_ping_task : ℕ → Option PingPhase
spawn_ping_task interval_ms = if interval_ms == 0 then none else some ticking

-- The PING frame.
abbrev pub ping_frame : ℕ → Bytes
ping_frame id = encode (build_header FrameType.ping 0 no_flags id)

-- A tick: the test, then a PING with a fresh id.
unfoldable pub ping_tick : MipClient → Reading → PingPhase × MipClient
ping_tick c now =
    if not c.connected || not c.running
    then (stopped, c)
    else (let (id, counter) = generate_msg_id c.msg_id_counter now in
        (pinging (ping_frame id), record c { msg_id_counter = counter }))

-- The task's own part of the client, and the channel behind its sender.
abbrev pub Pinger : Type 0 → Type 0
Pinger Chan = PingPhase × MipClient × Chan

module _ {Chan : Type 0} (mpsc : Mpsc Chan) where
  -- `tx.send(..).await`: with no room the task stays where it is.
  unfoldable pub ping_sent : MipClient → Chan → Bytes → Option Chan → Pinger Chan
  ping_sent c chan frame none = (pinging frame, c, chan)
  ping_sent c chan frame (some d) = (ticking, c, d)

  -- A step from one wait to the next; the clock counts at a tick only.
  unfoldable pub ping_step : Pinger Chan → Reading → Pinger Chan
  unfolding ping_tick ping_sent
  ping_step (ticking, c, chan) now = ((ping_tick c now).0, (ping_tick c now).1, chan)
  ping_step (pinging frame, c, chan) now =
      ping_sent c chan frame (send_await mpsc chan (send frame))
  ping_step (stopped, c, chan) now = (stopped, c, chan)
