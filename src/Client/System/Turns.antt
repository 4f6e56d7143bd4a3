-- ===== src/Client/System/Turns.antt =====
-- The steps of the client's owner, by the phase that it is in (mod.rs).
use mip_clients.Common.{◌≡◌, ap}
use mip_clients.Protocol.{Bitflags}
use mip_clients.Client.Sending.{Mpsc, Receiver, Reading}
use mip_clients.Client.Connection.{Dialled}
use mip_clients.Client.System.State.{
  UserPhase, free, dialled, greet, closing, cleaning, System, Event, disconnect_called, close,
  delivered, finish,
}
use mip_clients.Client.System.{
  step, connect_turn, dialled_turn, greet_turn, disconnect_turn, close_turn, close_on,
  delivered_turn, finish_turn,
}

module _ {Chan : Type 0} (bitflags : Bitflags) {mpsc : Mpsc Chan} (receiver : Receiver mpsc) where
  pub connect_at :
      (s : System Chan) (u : UserPhase)
      → s.user ≡ u
      → step bitflags mpsc receiver s Event.connect ≡ connect_turn bitflags mpsc receiver u s
  unfolding step
  connect_at s u e = ap (λ v. connect_turn bitflags mpsc receiver v s) e

  pub dialled_at :
      (s : System Chan) (u : UserPhase) (d : Dialled)
      → s.user ≡ u
      → step bitflags mpsc receiver s (dialled d) ≡ dialled_turn bitflags mpsc receiver u s d
  unfolding step
  dialled_at s u d e = ap (λ v. dialled_turn bitflags mpsc receiver v s d) e

  pub greet_at :
      (s : System Chan) (u : UserPhase) (now : Reading)
      → s.user ≡ u
      → step bitflags mpsc receiver s (greet now) ≡ greet_turn bitflags mpsc receiver u s now
  unfolding step
  greet_at s u now e = ap (λ v. greet_turn bitflags mpsc receiver v s now) e

  pub disconnect_at :
      (s : System Chan)
      → s.user ≡ free
      → step bitflags mpsc receiver s disconnect_called
        ≡ disconnect_turn bitflags mpsc receiver free s
  unfolding step
  disconnect_at s e = ap (λ u. disconnect_turn bitflags mpsc receiver u s) e

  pub close_at :
      (t : System Chan) (now : Reading)
      → t.user ≡ closing
      → step bitflags mpsc receiver t (close now)
        ≡ close_on bitflags mpsc receiver t.world.client.command_tx t now
  unfolding step close_turn
  close_at t now e = ap (λ u. close_turn bitflags mpsc receiver u t now) e

  pub delivered_at :
      (t : System Chan) (u : UserPhase)
      → t.user ≡ u
      → step bitflags mpsc receiver t delivered ≡ delivered_turn bitflags mpsc receiver u t
  unfolding step
  delivered_at t u e = ap (λ v. delivered_turn bitflags mpsc receiver v t) e

  pub finish_at :
      (t : System Chan)
      → t.user ≡ cleaning
      → step bitflags mpsc receiver t finish ≡ finish_turn bitflags mpsc receiver cleaning t
  unfolding step
  finish_at t e = ap (λ v. finish_turn bitflags mpsc receiver v t) e
