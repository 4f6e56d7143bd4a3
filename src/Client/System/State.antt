-- ===== src/Client/System/State.antt =====
-- The state of the whole system and its events (mod.rs, internals.rs).
use mip_clients.Common.{
  ◌≡◌, ◌≢◌, arith, ℕ, Bool, true, false, ◌==◌, Bytes, List, [], Option, none, some, if◌then◌else◌,
}
use mip_clients.Protocol.{FrameType, FrameFlags}
use mip_clients.Client.Types.{MipClientOptions}
use mip_clients.Client.Events.{Callback, Call}
use mip_clients.Client.Sending.{Reading}
use mip_clients.Client.State.{client_new, EventKind}
use mip_clients.Client.Api.{World}
use mip_clients.Client.Tasks.{ReadPhase, ReadResult, Writer, WriteResult, PingPhase}
use mip_clients.Client.Connection.{Dialled}

-- Where the owner of the client stands: between calls, in `TcpStream::connect`, before HELLO, before
-- `send_close_internal`, in the `send` of CLOSE, in the `send` of `Disconnect`, in the wait for the
-- write task, and behind the drop of the client. The methods take `&mut self`, so there is one call
-- at a time.
pub data UserPhase : Type 0 where
  free dialling greeting closing leaving cleaning dropped : UserPhase
  sending : Bytes → UserPhase

-- Connection `i` is the one whose channel is `world.channels` at `i`; its tasks stand at `i` in the
-- other fields. `calls` are all calls of callbacks so far.
pub record System (Chan : Type 0) : Type 0 where
  pub world : World Chan
  pub user : UserPhase
  pub readers : ℕ → ReadPhase
  pub writers : ℕ → Writer
  pub pingers : ℕ → PingPhase
  pub calls : List Call

pub data Event : Type 0 where
  read : ℕ → ReadResult → Event
  write : ℕ → WriteResult → Event
  ping : ℕ → Reading → Event
  on : EventKind → Callback → Event
  send_raw : Reading → FrameType → Bytes → FrameFlags → Event
  connect : Event
  dialled : Dialled → Event
  greet : Reading → Event
  disconnect_called : Event
  close : Reading → Event
  delivered : Event
  finish : Event
  drop : Event

abbrev pub update {ℓ} : {A : Type ℓ} → (ℕ → A) → ℕ → A → ℕ → A
update f i a j = if i == j then a else f j

pub update_same {ℓ} : {A : Type ℓ} (f : ℕ → A) (i : ℕ) (a : A) → update f i a i ≡ a
update_same f i a = ground arith

pub update_other {ℓ} : {A : Type ℓ} (f : ℕ → A) (i j : ℕ) (a : A) → i ≢ j → update f i a j ≡ f j
update_other f i j a n = ground arith

-- The entry that a handle names.
abbrev pub update_at {ℓ} : {A : Type ℓ} → (ℕ → A) → Option ℕ → A → ℕ → A
update_at f none a = f
update_at f (some i) a = update f i a

abbrev pub spawned : Writer
spawned = record { written = []; shut = false; active = true }

-- The entry of a task that was never spawned.
abbrev pub unspawned : Writer
unspawned = record { written = []; shut = false; active = false }

abbrev pub new_system : {Chan : Type 0} → MipClientOptions → System Chan
new_system options = record {
  world = record { client = client_new options; channels = [] };
  user = free;
  readers = λ i. ReadPhase.ended;
  writers = λ i. unspawned;
  pingers = λ i. PingPhase.stopped;
  calls = [];
}

abbrev pub pinger_of : Option PingPhase → PingPhase
pinger_of none = PingPhase.stopped
pinger_of (some p) = p

abbrev pub is_stopped : PingPhase → Bool
is_stopped PingPhase.stopped = true
is_stopped _ = false

abbrev pub names : Option ℕ → ℕ → Bool
names none i = false
names (some j) i = j == i
