-- ===== src/Client/System/Channels.antt =====
-- A rule for what holds of every connection: of its write task and its channel, in every reachable
-- state of the system.
use mip_clients.Common.{
  ℕ, ◌≡◌, inl, inr, refl, sym, Bool, Bytes, Option, none, some, get_elem?, Bool-cases,
}
use std.Path.{subst}
use mip_clients.Protocol.{Bitflags, FrameType, FrameFlags}
use mip_clients.Client.Types.{MipClientOptions}
use mip_clients.Client.Sending.{ClientCommand, send, Mpsc, Receiver, Reading}
use mip_clients.Client.State.{EventKind}
use mip_clients.Client.Events.{Callback}
use mip_clients.Client.Api.{World}
use mip_clients.Client.Tasks.{Writer, WriteResult, ping_step}
use mip_clients.Client.Connection.{Dialled, send_to, connect_open}
use mip_clients.Client.System.Accepted.{
  Accepted-send_raw_frame, Accepted-connect_hello, Accepted-send_to, ping_step_cases,
}
use mip_clients.Client.System.State.{
  UserPhase, free, dialling, greeting, closing, sending, leaving, cleaning, System, Event, spawned,
}
use mip_clients.Client.System.{
  step, Reach, start, later, write_task, write_turn, ping_turn, register_turn, send_turn,
  connect_turn, dialled_turn, greet_turn, disconnect_turn, close_turn, close_on, delivered_turn,
  sent, finish_turn, drop_turn, has_sender,
}
use mip_clients.Client.System.AllAt.{AllAt, AllAt-set, AllAt-turn, AllAt-spawn, AllAt-Accepted}

-- What the rule wants of `P`: that spawning a connection makes it hold, and that accepting a command
-- and a turn of the write task keep it.
pub record IsKept {Chan : Type 0} {mpsc : Mpsc Chan} (receiver : Receiver mpsc)
    (P : Writer → Chan → Type 0) : Type 0 where
  pub fresh : P spawned (mpsc.channel 100)
  pub accepts :
      (t : Writer) (c d : Chan) (x : ClientCommand) → P t c → mpsc.try_send c x ≡ some d → P t d
  pub writes :
      (senders : Bool) (t : Writer) (c : Chan) (r : WriteResult)
      → P t c
      → P (write_task receiver senders t c r).0 (write_task receiver senders t c r).1

module _ {Chan : Type 0} (bitflags : Bitflags) (mpsc : Mpsc Chan) (receiver : Receiver mpsc)
    {P : Writer → Chan → Type 0} (kept : IsKept receiver P) where
  abbrev pub Holds : System Chan → Type 0
  Holds s = AllAt mpsc P s.world.channels s.writers

  write_turn-Holds :
      (s : System Chan) (i : ℕ) (r : WriteResult) (o : Option Chan)
      → get_elem? s.world.channels i ≡ o
      → Holds s
      → Holds (write_turn bitflags mpsc receiver s i r o)
  unfolding write_turn
  write_turn-Holds s i r none e h = h
  write_turn-Holds s i r (some c) e h =
      let senders = has_sender s i in
      let (t, d) = write_task receiver senders (s.writers i) c r in
      AllAt-turn mpsc P s.world.channels s.writers i t d h
        (kept.writes senders (s.writers i) c r (h i c e))

  ping_turn-Holds :
      (s : System Chan) (i : ℕ) (now : Reading) (o : Option Chan)
      → get_elem? s.world.channels i ≡ o
      → Holds s
      → Holds (ping_turn bitflags mpsc receiver s i now o)
  unfolding ping_turn
  ping_turn-Holds s i now none e h = h
  ping_turn-Holds s i now (some c) e h =
      let d = (ping_step mpsc (s.pingers i, s.world.client, c) now).2 in
      AllAt-set mpsc P s.world.channels s.writers i d h
        (elim (ping_step_cases mpsc (s.pingers i) s.world.client c now) [
          | inl q ↦ subst (P (s.writers i)) q (h i c e)
          | inr (x, q) ↦ kept.accepts (s.writers i) c d x (h i c e) q
        ])

  register_turn-Holds :
      (u : UserPhase) (s : System Chan) (kind : EventKind) (f : Callback)
      → Holds s
      → Holds (register_turn bitflags mpsc receiver u s kind f)
  unfolding register_turn
  register_turn-Holds free s kind f h = h
  register_turn-Holds _ s kind f h = h

  send_turn-Holds :
      (u : UserPhase) (s : System Chan) (now : Reading) (t : FrameType) (p : Bytes) (f : FrameFlags)
      → Holds s
      → Holds (send_turn bitflags mpsc receiver u s now t p f)
  unfolding send_turn
  send_turn-Holds free s now t p f h =
      AllAt-Accepted mpsc P kept.accepts s.writers (Accepted-send_raw_frame mpsc s.world now t p f)
        h
  send_turn-Holds _ s now t p f h = h

  connect_turn-Holds :
      (u : UserPhase) (s : System Chan) → Holds s → Holds (connect_turn bitflags mpsc receiver u s)
  unfolding connect_turn
  connect_turn-Holds free s h = elim (Bool-cases s.world.client.connected) [
    | inl on ↦ rw on h
    | inr off ↦ rw off h
  ]
  connect_turn-Holds _ s h = h

  dialled_turn-Holds :
      (u : UserPhase) (s : System Chan) (d : Dialled)
      → Holds s
      → Holds (dialled_turn bitflags mpsc receiver u s d)
  unfolding dialled_turn connect_open
  dialled_turn-Holds dialling s (some e) h = h
  dialled_turn-Holds dialling s none h =
      AllAt-spawn mpsc P s.world.channels s.writers spawned (mpsc.channel 100) h kept.fresh
  dialled_turn-Holds _ s d h = h

  greet_turn-Holds :
      (u : UserPhase) (s : System Chan) (now : Reading)
      → Holds s
      → Holds (greet_turn bitflags mpsc receiver u s now)
  unfolding greet_turn
  greet_turn-Holds greeting s now h =
      AllAt-Accepted mpsc P kept.accepts s.writers (Accepted-connect_hello mpsc s.world now) h
  greet_turn-Holds _ s now h = h

  disconnect_turn-Holds :
      (u : UserPhase) (s : System Chan)
      → Holds s
      → Holds (disconnect_turn bitflags mpsc receiver u s)
  unfolding disconnect_turn
  disconnect_turn-Holds free s h = h
  disconnect_turn-Holds _ s h = h

  close_on-Holds :
      (tx : Option ℕ) (s : System Chan) (now : Reading)
      → Holds s
      → Holds (close_on bitflags mpsc receiver tx s now)
  unfolding close_on
  close_on-Holds none s now h = h
  close_on-Holds (some i) s now h = elim (Bool-cases s.world.client.connected) [
    | inl on ↦ rw on h
    | inr off ↦ rw off h
  ]

  close_turn-Holds :
      (u : UserPhase) (s : System Chan) (now : Reading)
      → Holds s
      → Holds (close_turn bitflags mpsc receiver u s now)
  unfolding close_turn
  close_turn-Holds closing s now h = close_on-Holds s.world.client.command_tx s now h
  close_turn-Holds _ s now h = h

  sent-Holds :
      (s s' : System Chan) (x : ClientCommand) (o : Option (World Chan))
      → s'.writers ≡ s.writers
      → send_to mpsc s.world x ≡ o
      → Holds s
      → Holds (sent bitflags mpsc receiver o s s')
  unfolding sent
  sent-Holds s s' x none q e h = h
  sent-Holds s s' x (some v) q e h =
      subst (AllAt mpsc P v.channels) (sym q)
        (AllAt-Accepted mpsc P kept.accepts s.writers (Accepted-send_to mpsc s.world x v e) h)

  delivered_turn-Holds :
      (u : UserPhase) (s : System Chan)
      → Holds s
      → Holds (delivered_turn bitflags mpsc receiver u s)
  unfolding delivered_turn
  delivered_turn-Holds (sending frame) s h =
      sent-Holds s _ (send frame) (send_to mpsc s.world (send frame)) refl refl h
  delivered_turn-Holds leaving s h =
      sent-Holds s _ ClientCommand.disconnect (send_to mpsc s.world ClientCommand.disconnect) refl
        refl h
  delivered_turn-Holds free s h = h
  delivered_turn-Holds _ s h = h

  finish_turn-Holds :
      (u : UserPhase) (s : System Chan) → Holds s → Holds (finish_turn bitflags mpsc receiver u s)
  unfolding finish_turn
  finish_turn-Holds cleaning s h = h
  finish_turn-Holds _ s h = h

  drop_turn-Holds :
      (u : UserPhase) (s : System Chan) → Holds s → Holds (drop_turn bitflags mpsc receiver u s)
  unfolding drop_turn
  drop_turn-Holds free s h = h
  drop_turn-Holds _ s h = h

  pub step-Holds : (s : System Chan) (e : Event) → Holds s → Holds (step bitflags mpsc receiver s e)
  unfolding step
  step-Holds s (Event.read i r) h = h
  step-Holds s (Event.write i r) h = write_turn-Holds s i r (get_elem? s.world.channels i) refl h
  step-Holds s (Event.ping i now) h = ping_turn-Holds s i now (get_elem? s.world.channels i) refl h
  step-Holds s (Event.on kind f) h = register_turn-Holds s.user s kind f h
  step-Holds s (Event.send_raw now t p f) h = send_turn-Holds s.user s now t p f h
  step-Holds s Event.connect h = connect_turn-Holds s.user s h
  step-Holds s (Event.dialled d) h = dialled_turn-Holds s.user s d h
  step-Holds s (Event.greet now) h = greet_turn-Holds s.user s now h
  step-Holds s Event.disconnect_called h = disconnect_turn-Holds s.user s h
  step-Holds s (Event.close now) h = close_turn-Holds s.user s now h
  step-Holds s Event.delivered h = delivered_turn-Holds s.user s h
  step-Holds s Event.finish h = finish_turn-Holds s.user s h
  step-Holds s Event.drop h = drop_turn-Holds s.user s h

  -- In every reachable state it holds of every connection.
  pub Reach-Holds :
      {options : MipClientOptions} {s : System Chan}
      → Reach bitflags mpsc receiver options s
      → Holds s
  Reach-Holds start = λ i c e. let impossible : ⊥ = cc in absurd impossible
  Reach-Holds (later {s} r e) = step-Holds s e (Reach-Holds r)
