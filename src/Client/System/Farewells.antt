-- ===== src/Client/System/Farewells.antt =====
-- How often the disconnect callbacks are called, however the system runs (mod.rs, internals.rs).
use mip_clients.Common.{
  ℕ, ◌+◌, ◌*◌, ◌≡◌, ◌≤◌, ◌<◌, refl, sym, ap, Bool, true, false, [], ◌∷◌, ◌++◌, map, none, some,
  length, length-append, if◌then◌else◌, arith,
}
use std.Path.{subst}
use mip_clients.Protocol.{Bitflags}
use mip_clients.Client.Types.{MipClientOptions}
use mip_clients.Client.Events.{Callback, Callbacks, Call}
use mip_clients.Client.Sending.{Mpsc, Receiver}
use mip_clients.Client.State.{EventKind, client_new}
use mip_clients.Client.Tasks.{ReadResult, read_step}
use mip_clients.Client.Tasks.Disconnects.{
  farewells, owed, farewells-append, farewells-map, step_pays,
}
use mip_clients.Client.Connection.{Dialled, connect_open}
use mip_clients.Client.System.State.{UserPhase, free, dialling, System, Event}
use mip_clients.Client.System.{step, Reach, start, later, read_turn, register_turn, dialled_turn}
use mip_clients.Client.System.Calmer.{Calmer-read_step}
use mip_clients.Client.System.Facts.{IsSound}
use mip_clients.Client.System.Sound.{Sound, Reach-Sound}
use mip_clients.Client.System.Quiet.{
  Quiet, write_turn-Quiet, ping_turn-Quiet, send_turn-Quiet, connect_turn-Quiet, greet_turn-Quiet,
  disconnect_turn-Quiet, close_turn-Quiet, delivered_turn-Quiet, finish_turn-Quiet, drop_turn-Quiet,
}

-- Owed by a client that is connected, or not, to so many callbacks.
abbrev due : Bool → ℕ → ℕ
due b n = if b then n else 0

owed-le : (b b' : Bool) (n : ℕ) → (b' ≡ true → b ≡ true) → due b' n ≤ due b n
owed-le b true n h = rw (h refl) (omega arith)
owed-le b false n h = omega arith

due-open :
    (calls more channels n : ℕ)
    → calls + due false n ≤ channels * n
    → more ≡ 0
    → calls + more + due true n ≤ (channels + 1) * n
due-open calls more channels n h e = grind arith

due-register :
    (b : Bool) (calls channels n : ℕ)
    → (b ≡ true → 0 < channels)
    → calls + due b n ≤ channels * n
    → calls + due b (n + 1) ≤ channels * (n + 1)
due-register true calls channels n o h = let pos = o refl in grind arith
due-register false calls channels n o h = grind arith

module _ {Chan : Type 0} where
  -- The disconnect callbacks that a client has.
  abbrev pub listeners : System Chan → ℕ
  listeners s = length s.world.client.callbacks.on_disconnect

  -- What was called and what is owed is no more than each callback once for each connection.
  pub record Paid (s : System Chan) : Type 0 where
    pub opened : s.world.client.connected ≡ true → 0 < length s.world.channels
    pub paid : farewells s.calls + owed s.world.client ≤ length s.world.channels * listeners s

  Paid-Quiet : (s s' : System Chan) → Quiet s s' → Paid s → Paid s'
  Paid-Quiet s s' q p = record {
    opened = λ e. rw q.channels (p.opened (q.connected e));
    paid =
        rw (q.channels, q.calls, q.callbacks)
          (omega (
            arith,
            p.paid,
            owed-le s.world.client.connected s'.world.client.connected (listeners s) q.connected,
          ));
  }

module _ {Chan : Type 0} (bitflags : Bitflags) (mpsc : Mpsc Chan) (receiver : Receiver mpsc) where
  read_turn-Paid :
      (s : System Chan) (i : ℕ) (r : ReadResult)
      → Paid s
      → Paid (read_turn bitflags mpsc receiver s i r)
  unfolding read_turn
  read_turn-Paid s i r p =
      let (phase, c, calls) = read_step bitflags s.world.client (s.readers i) r in
      let k = Calmer-read_step bitflags s.world.client (s.readers i) r in
      record {
        opened = λ e. p.opened (k.connected e);
        paid =
            subst (λ n. farewells (s.calls ++ calls) + owed c ≤ length s.world.channels * n)
              (sym (ap (λ (cbs : Callbacks). length cbs.on_disconnect) k.callbacks))
              (omega (
                arith,
                p.paid,
                farewells-append s.calls calls,
                step_pays bitflags s.world.client (s.readers i) r,
              ));
      }

  register_turn-Paid :
      (u : UserPhase) (s : System Chan) (kind : EventKind) (f : Callback)
      → Paid s
      → Paid (register_turn bitflags mpsc receiver u s kind f)
  unfolding register_turn
  register_turn-Paid free s EventKind.on_disconnect f p = record {
    opened = p.opened;
    paid = rw (length-append s.world.client.callbacks.on_disconnect (f ∷ [])) (
        due-register s.world.client.connected (farewells s.calls) (length s.world.channels)
          (listeners s) p.opened p.paid);
  }
  register_turn-Paid free s _ f p = record { opened = p.opened; paid = p.paid }
  register_turn-Paid _ s kind f p = p

  dialled_turn-Paid :
      (u : UserPhase) (s : System Chan) (d : Dialled)
      → IsSound s.world.client (length s.world.channels) u
      → Paid s
      → Paid (dialled_turn bitflags mpsc receiver u s d)
  unfolding dialled_turn connect_open
  dialled_turn-Paid dialling s (some e) h p = record { opened = p.opened; paid = p.paid }
  dialled_turn-Paid dialling s none h p = record {
    opened = λ e. omega (arith, length-append s.world.channels (mpsc.channel 100 ∷ []));
    paid =
        rw
          (
            length-append s.world.channels (mpsc.channel 100 ∷ []),
            farewells-append s.calls (map Call.connect s.world.client.callbacks.on_connect),
          )
          (due-open (farewells s.calls) _ (length s.world.channels) (listeners s)
            (subst
              (λ b. farewells s.calls + due b (listeners s) ≤ length s.world.channels * listeners s)
              (h.unconnected refl) p.paid)
            (farewells-map Call.connect s.world.client.callbacks.on_connect (λ f xs. refl)));
  }
  dialled_turn-Paid _ s d h p = p

  step-Paid :
      (s : System Chan) (e : Event)
      → Sound bitflags mpsc receiver s
      → Paid s
      → Paid (step bitflags mpsc receiver s e)
  unfolding step
  step-Paid s (Event.read i r) h p = read_turn-Paid s i r p
  step-Paid s (Event.write i r) h p =
      Paid-Quiet s _ (write_turn-Quiet bitflags mpsc receiver s i r _) p
  step-Paid s (Event.ping i now) h p =
      Paid-Quiet s _ (ping_turn-Quiet bitflags mpsc receiver s i now _) p
  step-Paid s (Event.on kind f) h p = register_turn-Paid s.user s kind f p
  step-Paid s (Event.send_raw now t q f) h p =
      Paid-Quiet s _ (send_turn-Quiet bitflags mpsc receiver s.user s now t q f) p
  step-Paid s Event.connect h p =
      Paid-Quiet s _ (connect_turn-Quiet bitflags mpsc receiver s.user s) p
  step-Paid s (Event.dialled d) h p = dialled_turn-Paid s.user s d h p
  step-Paid s (Event.greet now) h p =
      Paid-Quiet s _ (greet_turn-Quiet bitflags mpsc receiver s.user s now) p
  step-Paid s Event.disconnect_called h p =
      Paid-Quiet s _ (disconnect_turn-Quiet bitflags mpsc receiver s.user s) p
  step-Paid s (Event.close now) h p =
      Paid-Quiet s _ (close_turn-Quiet bitflags mpsc receiver s.user s now) p
  step-Paid s Event.delivered h p =
      Paid-Quiet s _ (delivered_turn-Quiet bitflags mpsc receiver s.user s) p
  step-Paid s Event.finish h p =
      Paid-Quiet s _ (finish_turn-Quiet bitflags mpsc receiver s.user s) p
  step-Paid s Event.drop h p = Paid-Quiet s _ (drop_turn-Quiet bitflags mpsc receiver s.user s) p

  Reach-Paid :
      {options : MipClientOptions} {s : System Chan}
      → Reach bitflags mpsc receiver options s
      → Paid s
  unfolding client_new
  Reach-Paid start = record {
    opened = λ e. let impossible : ⊥ = cc in absurd impossible;
    paid = omega arith;
  }
  Reach-Paid (later {s} r e) = step-Paid s e (Reach-Sound bitflags mpsc receiver r) (Reach-Paid r)

  -- In every reachable state, in whatever order the tasks of however many connections and the calls of
  -- the client have run: the calls of disconnect callbacks are no more than each registered one called
  -- once for each connection opened, and while the client is connected each has a call less.
  pub Reach-farewells :
      {options : MipClientOptions} {s : System Chan}
      → Reach bitflags mpsc receiver options s
      → farewells s.calls + owed s.world.client
        ≤ length s.world.channels * length s.world.client.callbacks.on_disconnect
  Reach-farewells r = (Reach-Paid r).paid
