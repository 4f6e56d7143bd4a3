-- ===== src/Client/System/Sound.antt =====
-- What the client's fields say of one another in every reachable state (mod.rs, internals.rs).
mod Turns
mod Goodbyes
use mip_clients.Common.{refl, get_elem?}
use mip_clients.Protocol.{Bitflags}
use mip_clients.Client.Types.{MipClientOptions}
use mip_clients.Client.Sending.{Mpsc, Receiver}
use mip_clients.Client.State.{client_new}
use mip_clients.Client.System.State.{System, Event}
use mip_clients.Client.System.{step, Reach, start, later, read_turn}
use mip_clients.Client.System.Calmer.{Calmer-read_step}
pub use Turns.{Sound}
use mip_clients.Client.System.Sound.Turns.{
  register_turn-Sound, write_turn-Sound, ping_turn-Sound, send_turn-Sound, connect_turn-Sound,
  dialled_turn-Sound, greet_turn-Sound, calmed,
}
use mip_clients.Client.System.Sound.Goodbyes.{
  disconnect_turn-Sound, close_turn-Sound, delivered_turn-Sound, finish_turn-Sound, drop_turn-Sound,
}

module _ {Chan : Type 0} (bitflags : Bitflags) (mpsc : Mpsc Chan) (receiver : Receiver mpsc) where
  step-Sound :
      (s : System Chan) (e : Event)
      → Sound bitflags mpsc receiver s
      → Sound bitflags mpsc receiver (step bitflags mpsc receiver s e)
  unfolding step
  step-Sound s (Event.read i r) h =
      calmed bitflags mpsc receiver s (read_turn bitflags mpsc receiver s i r)
        (unfold read_turn in Calmer-read_step bitflags s.world.client (s.readers i) r)
        (unfold read_turn in refl) (unfold read_turn in refl) h
  step-Sound s (Event.write i r) h =
      write_turn-Sound bitflags mpsc receiver s i r (get_elem? s.world.channels i) h
  step-Sound s (Event.ping i now) h =
      ping_turn-Sound bitflags mpsc receiver s i now (get_elem? s.world.channels i) h
  step-Sound s (Event.on kind f) h = register_turn-Sound bitflags mpsc receiver s.user s kind f h
  step-Sound s (Event.send_raw now t p f) h =
      send_turn-Sound bitflags mpsc receiver s.user s now t p f h
  step-Sound s Event.connect h = connect_turn-Sound bitflags mpsc receiver s.user s h h
  step-Sound s (Event.dialled d) h = dialled_turn-Sound bitflags mpsc receiver s.user s d h h
  step-Sound s (Event.greet now) h = greet_turn-Sound bitflags mpsc receiver s.user s now h h
  step-Sound s Event.disconnect_called h = disconnect_turn-Sound bitflags mpsc receiver s.user s h h
  step-Sound s (Event.close now) h = close_turn-Sound bitflags mpsc receiver s.user s now h h
  step-Sound s Event.delivered h = delivered_turn-Sound bitflags mpsc receiver s.user s h h
  step-Sound s Event.finish h = finish_turn-Sound bitflags mpsc receiver s.user s h
  step-Sound s Event.drop h = drop_turn-Sound bitflags mpsc receiver s.user s h

  -- In every reachable state: a connected client that was not dropped has a sender, and a sender names
  -- a channel that there is; a client that dials is not connected; a client in `disconnect` is not
  -- running and not to reconnect.
  pub Reach-Sound :
      {options : MipClientOptions} {s : System Chan}
      → Reach bitflags mpsc receiver options s
      → Sound bitflags mpsc receiver s
  unfolding client_new
  Reach-Sound start = record {
    sender = λ nd on. let impossible : ⊥ = cc in absurd impossible;
    valid = λ i e. let impossible : ⊥ = cc in absurd impossible;
    unconnected = λ e. refl;
    off = λ e. let impossible : ⊥ = cc in absurd impossible;
  }
  Reach-Sound (later {s} r e) = step-Sound s e (Reach-Sound r)
