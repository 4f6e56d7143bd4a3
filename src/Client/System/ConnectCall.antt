-- ===== src/Client/System/ConnectCall.antt =====
-- What a call of `connect` does to the whole system, when no other event comes between its parts
-- (mod.rs).
use mip_clients.Common.{
  ℕ, ◌≡◌, ◌≢◌, refl, sym, ap, ◌∙◌, Bool, true, false, [], ◌++◌, map, none, some, length,
}
use std.Path.{subst}
use mip_clients.Protocol.{Bitflags}
use mip_clients.Client.Events.{Call}
use mip_clients.Client.Sending.{Mpsc, Receiver, Reading, generate_msg_id}
use mip_clients.Client.Tasks.{ReadPhase, spawn_ping_task}
use mip_clients.Client.Connection.{Dialled}
use mip_clients.Client.Connection.Laws.{Connected, connect-Connected}
use mip_clients.Client.System.State.{free, System, spawned, pinger_of, update_same, update_other}
use mip_clients.Client.System.{with_client, opened, greet_turn}
use mip_clients.Client.System.Calls.{
  started, connect_run, connect-run, run_on, run_refused, run_opened,
}

module _ {Chan : Type 0} (bitflags : Bitflags) {mpsc : Mpsc Chan} (receiver : Receiver mpsc) where
  -- The state behind a `connect` that got a stream: the client is connected and has sent HELLO, its
  -- connect callbacks were called, the tasks of a new connection stand at their start, and those of the
  -- other connections where they stood.
  pub record Established (s : System Chan) (now : Reading) (s' : System Chan) : Type 0 where
    pub connected :
        Connected mpsc s.world s'.world now (generate_msg_id s.world.client.msg_id_counter now).0
    pub calls : s'.calls ≡ s.calls ++ map Call.connect s.world.client.callbacks.on_connect
    pub user : s'.user ≡ free
    pub reader : s'.readers (length s.world.channels) ≡ ReadPhase.checking []
    pub writer : s'.writers (length s.world.channels) ≡ spawned
    pub pinger :
        s'.pingers (length s.world.channels)
        ≡ pinger_of (spawn_ping_task s.world.client.options.ping_interval_ms)
    pub others :
        (j : ℕ)
        → length s.world.channels ≢ j
        → (s'.readers j ≡ s.readers j) × (s'.writers j ≡ s.writers j) × (s'.pingers j ≡ s.pingers j)

  -- What `connect` makes of a state, by whether the client is connected and by what the dial answers.
  abbrev pub Answers : Bool → Dialled → System Chan → Reading → System Chan → Type 0
  Answers true d s now s' = s' ≡ s
  Answers false (some e) s now s' =
      s' ≡ record (with_client s (record s.world.client { running = true })) { user = free }
  Answers false none s now s' = Established s now s'

  established :
      (s : System Chan) (now : Reading)
      → s.user ≡ free
      → s.world.client.connected ≡ false
      → Established s now (connect_run bitflags receiver s none now)
  unfolding greet_turn opened started
  established s now e off =
      let q = run_opened bitflags receiver s now e off in
      let (w, c, u) = connect-run bitflags receiver s none now e in
      let (_, k, f) = connect-Connected mpsc s.world now off in
      let n = length s.world.channels in
      record {
        connected =
            subst
              (λ v.
                Connected mpsc s.world v now (generate_msg_id s.world.client.msg_id_counter now).0)
              (sym w) k;
        calls = c ∙ ap (λ xs. s.calls ++ xs) f;
        user = u;
        reader = ap (λ t. t.readers n) q ∙ update_same s.readers n _;
        writer = ap (λ t. t.writers n) q ∙ update_same s.writers n _;
        pinger = ap (λ t. t.pingers n) q ∙ update_same s.pingers n _;
        others = λ j ne. (
          ap (λ t. t.readers j) q ∙ update_other s.readers n j _ ne,
          ap (λ t. t.writers j) q ∙ update_other s.writers n j _ ne,
          ap (λ t. t.pingers j) q ∙ update_other s.pingers n j _ ne,
        );
      }

  Answers-at :
      (on : Bool) (d : Dialled) (s : System Chan) (now : Reading)
      → s.user ≡ free
      → s.world.client.connected ≡ on
      → Answers on d s now (connect_run bitflags receiver s d now)
  Answers-at true d s now e on = run_on bitflags receiver s d now e on
  Answers-at false (some text) s now e off =
      unfold started in run_refused bitflags receiver s text now e off
  Answers-at false none s now e off = established s now e off

  -- From a state in which no call is under way, the events of `connect` with no other between them: on a
  -- connected client they change nothing; where the dial fails only `running` is set, and no callback is
  -- called; where it gets a stream the client is connected over a new channel that holds HELLO with the
  -- configured client id, its attempts are counted from 0, each connect callback was called once, in the
  -- order of registration, and the tasks of the new connection stand at their start, those of earlier
  -- ones where they stood.
  pub connect_run-Answers :
      (s : System Chan) (d : Dialled) (now : Reading)
      → s.user ≡ free
      → Answers s.world.client.connected d s now (connect_run bitflags receiver s d now)
  connect_run-Answers s d now e = Answers-at s.world.client.connected d s now e refl
