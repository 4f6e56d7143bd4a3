-- ===== src/Client/System/Quiet.antt =====
-- The steps that call no callback and open no connection (mod.rs, internals.rs).
use mip_clients.Common.{
  ℕ, ◌≡◌, refl, sym, ap, ◌∙◌, true, Bytes, Option, none, some, length, length-set, if_keeps,
}
use mip_clients.Protocol.{Bitflags, FrameType, FrameFlags}
use mip_clients.Client.Sending.{ClientCommand, send, Mpsc, Receiver, Reading}
use mip_clients.Client.Api.{World, send_raw_frame}
use mip_clients.Client.Tasks.{WriteResult}
use mip_clients.Client.Connection.{send_to, disconnect_end}
use mip_clients.Client.System.State.{
  UserPhase, free, greeting, closing, sending, leaving, cleaning, System,
}
use mip_clients.Client.System.{
  write_turn, ping_turn, send_turn, connect_turn, greet_turn, disconnect_turn, close_turn, close_on,
  delivered_turn, cleaned, sent, finish_turn, drop_turn,
}
use mip_clients.Client.System.Accepted.{
  Accepted-send_raw_frame, Accepted-connect_hello, Accepted-send_to,
}
use mip_clients.Client.System.Calmer.{
  Calmer, Calmer-ping_step, Calmer-connect_hello, send_to-client, length-Accepted,
}

module _ {Chan : Type 0} where
  -- A step that calls nothing, opens nothing, and connects nothing.
  pub record Quiet (s s' : System Chan) : Type 0 where
    pub channels : length s'.world.channels ≡ length s.world.channels
    pub calls : s'.calls ≡ s.calls
    pub callbacks : s'.world.client.callbacks ≡ s.world.client.callbacks
    pub connected : s'.world.client.connected ≡ true → s.world.client.connected ≡ true

  Quiet-refl : (s : System Chan) → Quiet s s
  Quiet-refl s = record { channels = refl; calls = refl; callbacks = refl; connected = λ e. e }

  Quiet-Calmer :
      (s s' : System Chan)
      → Calmer s.world.client s'.world.client
      → length s'.world.channels ≡ length s.world.channels
      → s'.calls ≡ s.calls
      → Quiet s s'
  Quiet-Calmer s s' k e f = record {
    channels = e;
    calls = f;
    callbacks = k.callbacks;
    connected = k.connected;
  }

module _ {Chan : Type 0} (bitflags : Bitflags) (mpsc : Mpsc Chan) (receiver : Receiver mpsc) where
  pub write_turn-Quiet :
      (s : System Chan) (i : ℕ) (r : WriteResult) (o : Option Chan)
      → Quiet s (write_turn bitflags mpsc receiver s i r o)
  unfolding write_turn
  write_turn-Quiet s i r none = Quiet-refl s
  write_turn-Quiet s i r (some c) = record {
    channels = length-set s.world.channels i _;
    calls = refl;
    callbacks = refl;
    connected = λ e. e;
  }

  pub ping_turn-Quiet :
      (s : System Chan) (i : ℕ) (now : Reading) (o : Option Chan)
      → Quiet s (ping_turn bitflags mpsc receiver s i now o)
  unfolding ping_turn
  ping_turn-Quiet s i now none = Quiet-refl s
  ping_turn-Quiet s i now (some c) =
      Quiet-Calmer s (ping_turn bitflags mpsc receiver s i now (some c))
        (Calmer-ping_step mpsc (s.pingers i) s.world.client c now) (length-set s.world.channels i _)
        refl

  pub send_turn-Quiet :
      (u : UserPhase) (s : System Chan) (now : Reading) (t : FrameType) (p : Bytes) (f : FrameFlags)
      → Quiet s (send_turn bitflags mpsc receiver u s now t p f)
  unfolding send_turn send_raw_frame
  send_turn-Quiet free s now t p f = record {
    channels = length-Accepted mpsc (Accepted-send_raw_frame mpsc s.world now t p f);
    calls = refl;
    callbacks = refl;
    connected = λ e. e;
  }
  send_turn-Quiet _ s now t p f = Quiet-refl s

  pub connect_turn-Quiet :
      (u : UserPhase) (s : System Chan) → Quiet s (connect_turn bitflags mpsc receiver u s)
  unfolding connect_turn
  connect_turn-Quiet free s =
      if_keeps (Quiet s) s.world.client.connected _ _ (λ on. Quiet-refl s)
        (λ off. record { channels = refl; calls = refl; callbacks = refl; connected = λ e. e })
  connect_turn-Quiet _ s = Quiet-refl s

  pub greet_turn-Quiet :
      (u : UserPhase) (s : System Chan) (now : Reading)
      → Quiet s (greet_turn bitflags mpsc receiver u s now)
  unfolding greet_turn
  greet_turn-Quiet greeting s now =
      Quiet-Calmer s (greet_turn bitflags mpsc receiver greeting s now)
        (Calmer-connect_hello mpsc s.world now)
        (length-Accepted mpsc (Accepted-connect_hello mpsc s.world now)) refl
  greet_turn-Quiet _ s now = Quiet-refl s

  pub disconnect_turn-Quiet :
      (u : UserPhase) (s : System Chan) → Quiet s (disconnect_turn bitflags mpsc receiver u s)
  unfolding disconnect_turn
  disconnect_turn-Quiet free s = record {
    channels = refl;
    calls = refl;
    callbacks = refl;
    connected = λ e. e;
  }
  disconnect_turn-Quiet _ s = Quiet-refl s

  close_on-Quiet :
      (tx : Option ℕ) (s : System Chan) (now : Reading)
      → Quiet s (close_on bitflags mpsc receiver tx s now)
  unfolding close_on cleaned
  close_on-Quiet none s now = record {
    channels = refl;
    calls = refl;
    callbacks = refl;
    connected = λ e. e;
  }
  close_on-Quiet (some i) s now =
      if_keeps (Quiet s) s.world.client.connected _ _
        (λ on. record { channels = refl; calls = refl; callbacks = refl; connected = λ e. e })
        (λ off. record { channels = refl; calls = refl; callbacks = refl; connected = λ e. e })

  pub close_turn-Quiet :
      (u : UserPhase) (s : System Chan) (now : Reading)
      → Quiet s (close_turn bitflags mpsc receiver u s now)
  unfolding close_turn
  close_turn-Quiet closing s now = close_on-Quiet s.world.client.command_tx s now
  close_turn-Quiet _ s now = Quiet-refl s

  sent-Quiet :
      (s s' : System Chan) (x : ClientCommand) (o : Option (World Chan))
      → send_to mpsc s.world x ≡ o
      → s'.calls ≡ s.calls
      → Quiet s (sent bitflags mpsc receiver o s s')
  unfolding sent
  sent-Quiet s s' x none e f = Quiet-refl s
  sent-Quiet s s' x (some v) e f = record {
    channels = length-Accepted mpsc (Accepted-send_to mpsc s.world x v e);
    calls = f;
    callbacks = ap (λ c. c.callbacks) (send_to-client mpsc s.world v x e);
    connected = λ g. sym (ap (λ c. c.connected) (send_to-client mpsc s.world v x e)) ∙ g;
  }

  pub delivered_turn-Quiet :
      (u : UserPhase) (s : System Chan) → Quiet s (delivered_turn bitflags mpsc receiver u s)
  unfolding delivered_turn cleaned
  delivered_turn-Quiet (sending frame) s = sent-Quiet s _ (send frame) _ refl refl
  delivered_turn-Quiet leaving s = sent-Quiet s _ ClientCommand.disconnect _ refl refl
  delivered_turn-Quiet free s = Quiet-refl s
  delivered_turn-Quiet _ s = Quiet-refl s

  pub finish_turn-Quiet :
      (u : UserPhase) (s : System Chan) → Quiet s (finish_turn bitflags mpsc receiver u s)
  unfolding finish_turn disconnect_end
  finish_turn-Quiet cleaning s = record {
    channels = refl;
    calls = refl;
    callbacks = refl;
    connected = λ e. cc;
  }
  finish_turn-Quiet _ s = Quiet-refl s

  pub drop_turn-Quiet :
      (u : UserPhase) (s : System Chan) → Quiet s (drop_turn bitflags mpsc receiver u s)
  unfolding drop_turn
  drop_turn-Quiet free s = record {
    channels = refl;
    calls = refl;
    callbacks = refl;
    connected = λ e. e;
  }
  drop_turn-Quiet _ s = Quiet-refl s
