-- ===== src/Client/System/Sound/Goodbyes.antt =====
-- What a client's fields say of one another is kept by the turns of `disconnect` and by the drop of the
-- client (mod.rs, internals.rs).
use mip_clients.Common.{ℕ, ◌≡◌, refl, true, Option, none, some, length, if_keeps}
use mip_clients.Protocol.{Bitflags}
use mip_clients.Client.Sending.{ClientCommand, send, Mpsc, Receiver, Reading}
use mip_clients.Client.Api.{World}
use mip_clients.Client.Connection.{send_to, disconnect_end}
use mip_clients.Client.System.State.{UserPhase, free, closing, sending, leaving, cleaning, System}
use mip_clients.Client.System.{
  disconnect_turn, close_turn, close_on, delivered_turn, cleaned, sent, finish_turn, drop_turn,
}
use mip_clients.Client.System.Facts.{is_leaving, IsSound-Calmer}
use mip_clients.Client.System.Calmer.{Calmer-refl, Calmer-counter, send_to-client, length-Accepted}
use mip_clients.Client.System.Accepted.{Accepted-send_to}
use mip_clients.Client.System.Sound.Turns.{Sound, At}

module _ {Chan : Type 0} (bitflags : Bitflags) (mpsc : Mpsc Chan) (receiver : Receiver mpsc) where
  pub disconnect_turn-Sound :
      (u : UserPhase) (s : System Chan)
      → At bitflags mpsc receiver u s
      → Sound bitflags mpsc receiver s
      → Sound bitflags mpsc receiver (disconnect_turn bitflags mpsc receiver u s)
  unfolding disconnect_turn
  disconnect_turn-Sound free s g h = record {
    sender = λ nd on. g.sender (λ e. cc) on;
    valid = g.valid;
    unconnected = λ e. cc;
    off = λ e. record { running = refl; auto_reconnect = refl };
  }
  disconnect_turn-Sound _ s g h = h

  close_on-Sound :
      (tx : Option ℕ) (s : System Chan) (now : Reading)
      → At bitflags mpsc receiver closing s
      → Sound bitflags mpsc receiver (close_on bitflags mpsc receiver tx s now)
  unfolding close_on cleaned
  close_on-Sound none s now g =
      IsSound-Calmer s.world.client s.world.client (length s.world.channels) closing cleaning g
        (Calmer-refl s.world.client) (λ d. cc) (λ d. cc) (λ d. refl)
  close_on-Sound (some i) s now g =
      if_keeps (Sound bitflags mpsc receiver) s.world.client.connected _ _
        (λ on.
          IsSound-Calmer s.world.client _ (length s.world.channels) closing (sending _) g
            (Calmer-counter s.world.client _) (λ d. cc) (λ d. cc) (λ d. refl))
        (λ off.
          IsSound-Calmer s.world.client s.world.client (length s.world.channels) closing leaving g
            (Calmer-refl s.world.client) (λ d. cc) (λ d. cc) (λ d. refl))

  pub close_turn-Sound :
      (u : UserPhase) (s : System Chan) (now : Reading)
      → At bitflags mpsc receiver u s
      → Sound bitflags mpsc receiver s
      → Sound bitflags mpsc receiver (close_turn bitflags mpsc receiver u s now)
  unfolding close_turn
  close_turn-Sound closing s now g h = close_on-Sound s.world.client.command_tx s now g
  close_turn-Sound _ s now g h = h

  sent-Sound :
      (u u' : UserPhase) (s s' : System Chan) (x : ClientCommand) (o : Option (World Chan))
      → send_to mpsc s.world x ≡ o
      → s'.user ≡ u'
      → is_leaving u ≡ true
      → is_leaving u' ≡ true
      → At bitflags mpsc receiver u s
      → Sound bitflags mpsc receiver s
      → Sound bitflags mpsc receiver (sent bitflags mpsc receiver o s s')
  unfolding sent
  sent-Sound u u' s s' x none e q l l' g h = h
  sent-Sound u u' s s' x (some v) e q l l' g h =
      rw
        (
          q,
          send_to-client mpsc s.world v x e,
          length-Accepted mpsc (Accepted-send_to mpsc s.world x v e),
        )
        (IsSound-Calmer s.world.client s.world.client (length s.world.channels) u u' g
          (Calmer-refl s.world.client) (λ d. cc) (λ d. cc) (λ d. l))

  pub delivered_turn-Sound :
      (u : UserPhase) (s : System Chan)
      → At bitflags mpsc receiver u s
      → Sound bitflags mpsc receiver s
      → Sound bitflags mpsc receiver (delivered_turn bitflags mpsc receiver u s)
  unfolding delivered_turn cleaned
  delivered_turn-Sound (sending frame) s g h =
      sent-Sound (sending frame) leaving s _ (send frame) _ refl refl refl refl g h
  delivered_turn-Sound leaving s g h =
      sent-Sound leaving cleaning s _ ClientCommand.disconnect _ refl refl refl refl g h
  delivered_turn-Sound free s g h = h
  delivered_turn-Sound _ s g h = h

  pub finish_turn-Sound :
      (u : UserPhase) (s : System Chan)
      → Sound bitflags mpsc receiver s
      → Sound bitflags mpsc receiver (finish_turn bitflags mpsc receiver u s)
  unfolding finish_turn disconnect_end
  finish_turn-Sound cleaning s h = record {
    sender = λ nd on. let impossible : ⊥ = cc in absurd impossible;
    valid = λ i e. let impossible : ⊥ = cc in absurd impossible;
    unconnected = λ e. refl;
    off = λ e. let impossible : ⊥ = cc in absurd impossible;
  }
  finish_turn-Sound _ s h = h

  pub drop_turn-Sound :
      (u : UserPhase) (s : System Chan)
      → Sound bitflags mpsc receiver s
      → Sound bitflags mpsc receiver (drop_turn bitflags mpsc receiver u s)
  unfolding drop_turn
  drop_turn-Sound free s h = record {
    sender = λ nd on. absurd (nd refl);
    valid = λ i e. let impossible : ⊥ = cc in absurd impossible;
    unconnected = λ e. cc;
    off = λ e. let impossible : ⊥ = cc in absurd impossible;
  }
  drop_turn-Sound _ s h = h
