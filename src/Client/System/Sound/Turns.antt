-- ===== src/Client/System/Sound/Turns.antt =====
-- What a client's fields say of one another is kept by the turns of the spawned tasks and by those of
-- registration, sending and `connect` (mod.rs, internals.rs).
use mip_clients.Common.{
  ℕ, ◌≡◌, refl, Bytes, [], ◌∷◌, Option, none, some, length, length-set, length-append, if_keeps,
  arith,
}
use mip_clients.Protocol.{Bitflags, FrameType, FrameFlags}
use mip_clients.Client.Events.{Callback}
use mip_clients.Client.Sending.{Mpsc, Receiver, Reading}
use mip_clients.Client.State.{EventKind}
use mip_clients.Client.Api.{send_raw_frame}
use mip_clients.Client.Tasks.{WriteResult}
use mip_clients.Client.Connection.{Dialled, connect_open, connect_hello}
use mip_clients.Client.System.State.{UserPhase, free, dialling, greeting, System}
use mip_clients.Client.System.{
  write_turn, ping_turn, register_turn, send_turn, connect_turn, dialled_turn, greet_turn,
}
use mip_clients.Client.System.Facts.{IsSound, IsSound-Calmer}
use mip_clients.Client.System.Calmer.{
  Calmer, Calmer-refl, Calmer-counter, Calmer-ping_step, Calmer-connect_hello, length-Accepted,
}
use mip_clients.Client.System.Accepted.{Accepted-send_raw_frame, Accepted-connect_hello}

some_index : (n i : ℕ) → some n ≡ some i → n ≡ i
some_index n i e = cc

module _ {Chan : Type 0} (bitflags : Bitflags) (mpsc : Mpsc Chan) (receiver : Receiver mpsc) where
  abbrev pub Sound : System Chan → Type 0
  Sound s = IsSound s.world.client (length s.world.channels) s.user

  -- A step that calms the client, with as many channels as before.
  pub calmed :
      (s s' : System Chan)
      → Calmer s.world.client s'.world.client
      → length s'.world.channels ≡ length s.world.channels
      → s'.user ≡ s.user
      → Sound s
      → Sound s'
  calmed s s' k e u h =
      rw (e, u)
        (IsSound-Calmer s.world.client s'.world.client (length s.world.channels) s.user s.user h k
          (λ d. d) (λ d. d) (λ d. d))

  pub write_turn-Sound :
      (s : System Chan) (i : ℕ) (r : WriteResult) (o : Option Chan)
      → Sound s
      → Sound (write_turn bitflags mpsc receiver s i r o)
  unfolding write_turn
  write_turn-Sound s i r none h = h
  write_turn-Sound s i r (some c) h =
      calmed s (write_turn bitflags mpsc receiver s i r (some c)) (Calmer-refl s.world.client)
        (length-set s.world.channels i _) refl h

  pub ping_turn-Sound :
      (s : System Chan) (i : ℕ) (now : Reading) (o : Option Chan)
      → Sound s
      → Sound (ping_turn bitflags mpsc receiver s i now o)
  unfolding ping_turn
  ping_turn-Sound s i now none h = h
  ping_turn-Sound s i now (some c) h =
      calmed s (ping_turn bitflags mpsc receiver s i now (some c))
        (Calmer-ping_step mpsc (s.pingers i) s.world.client c now) (length-set s.world.channels i _)
        refl h

  -- What is known in phase `u`.
  abbrev pub At : UserPhase → System Chan → Type 0
  At u s = IsSound s.world.client (length s.world.channels) u

  pub register_turn-Sound :
      (u : UserPhase) (s : System Chan) (kind : EventKind) (f : Callback)
      → Sound s
      → Sound (register_turn bitflags mpsc receiver u s kind f)
  unfolding register_turn
  register_turn-Sound free s kind f h = record {
    sender = h.sender;
    valid = h.valid;
    unconnected = h.unconnected;
    off = λ e. let o = h.off e in record { running = o.running; auto_reconnect = o.auto_reconnect };
  }
  register_turn-Sound _ s kind f h = h

  pub send_turn-Sound :
      (u : UserPhase) (s : System Chan) (now : Reading) (t : FrameType) (p : Bytes) (f : FrameFlags)
      → Sound s
      → Sound (send_turn bitflags mpsc receiver u s now t p f)
  unfolding send_turn send_raw_frame
  send_turn-Sound free s now t p f h =
      calmed s (send_turn bitflags mpsc receiver free s now t p f) (Calmer-counter s.world.client _)
        (length-Accepted mpsc (Accepted-send_raw_frame mpsc s.world now t p f)) refl h
  send_turn-Sound _ s now t p f h = h

  pub connect_turn-Sound :
      (u : UserPhase) (s : System Chan)
      → At u s
      → Sound s
      → Sound (connect_turn bitflags mpsc receiver u s)
  unfolding connect_turn
  connect_turn-Sound free s g h =
      if_keeps Sound s.world.client.connected _ _ (λ on. h)
        (λ off. record {
          sender = λ nd on. let impossible : ⊥ = cc in absurd impossible;
          valid = g.valid;
          unconnected = λ e. off;
          off = λ e. let impossible : ⊥ = cc in absurd impossible;
        })
  connect_turn-Sound _ s g h = h

  pub dialled_turn-Sound :
      (u : UserPhase) (s : System Chan) (d : Dialled)
      → At u s
      → Sound s
      → Sound (dialled_turn bitflags mpsc receiver u s d)
  unfolding dialled_turn connect_open
  dialled_turn-Sound dialling s (some e) g h =
      IsSound-Calmer s.world.client s.world.client (length s.world.channels) dialling free g
        (Calmer-refl s.world.client) (λ d. cc) (λ d. cc) (λ d. cc)
  dialled_turn-Sound dialling s none g h = record {
    sender = λ nd on. (length s.world.channels, refl);
    valid = λ i e. omega (
      arith,
      some_index (length s.world.channels) i e,
      length-append s.world.channels (mpsc.channel 100 ∷ []),
    );
    unconnected = λ e. cc;
    off = λ e. let impossible : ⊥ = cc in absurd impossible;
  }
  dialled_turn-Sound _ s d g h = h

  pub greet_turn-Sound :
      (u : UserPhase) (s : System Chan) (now : Reading)
      → At u s
      → Sound s
      → Sound (greet_turn bitflags mpsc receiver u s now)
  unfolding greet_turn
  greet_turn-Sound greeting s now g h =
      rw (length-Accepted mpsc (Accepted-connect_hello mpsc s.world now)) (
        IsSound-Calmer s.world.client (connect_hello mpsc s.world now).1.client
          (length s.world.channels) greeting free g (Calmer-connect_hello mpsc s.world now)
          (λ d. cc) (λ d. cc) (λ d. cc))
  greet_turn-Sound _ s now g h = h
