-- ===== src/Client/System/Returns.antt =====
-- A `disconnect` under way can always be brought to its end (mod.rs, internals.rs).
use mip_clients.Common.{ℕ, ◌≡◌, ◌≤◌, List, Option, some, length, All}
use mip_clients.Protocol.{Bitflags}
use mip_clients.Client.Sending.{Mpsc, Receiver}
use mip_clients.Client.Connection.Disconnect.{IsDisconnected}
use mip_clients.Client.System.State.{free, System, Event, write, close, delivered, finish}
use mip_clients.Client.System.{run}
use mip_clients.Client.System.Sends.{Sends}

module _ {Chan : Type 0} (bitflags : Bitflags) {mpsc : Mpsc Chan} (receiver : Receiver mpsc) where
  -- An event of the call of `disconnect`, or of the write task of the connection that a sender names:
  -- nothing of the peer, of the read task, of the ping task or of a dial.
  abbrev pub IsOwn : Option ℕ → Event → Type 0
  IsOwn tx (write i r) = tx ≡ some i
  IsOwn tx (close now) = Unit
  IsOwn tx delivered = Unit
  IsOwn tx finish = Unit
  IsOwn tx _ = ⊥

  -- In `n` more such events the call can have returned, with the client disconnected.
  abbrev pub ReturnsIn : ℕ → Option ℕ → System Chan → Type 0
  ReturnsIn n tx s =
      (es : List Event) × (length es ≤ n)
      × All (IsOwn tx) es
      × ((run bitflags mpsc receiver s es).user ≡ free)
      × IsDisconnected mpsc (run bitflags mpsc receiver s es).world
