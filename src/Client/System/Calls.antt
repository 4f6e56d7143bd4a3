-- ===== src/Client/System/Calls.antt =====
-- The call `connect` as a sequence of events of the system with no other between them (mod.rs).
use mip_clients.Common.{
  Text, ◌≡◌, refl, sym, ap, ◌∙◌, true, false, List, [], ◌∷◌, ◌++◌, none, some, append-nil,
  Bool-cases, inl, inr, if◌then◌else◌,
}
use std.Path.{subst}
use mip_clients.Protocol.{Bitflags}
use mip_clients.Client.Sending.{Mpsc, Receiver, Reading}
use mip_clients.Client.Connection.{Dialled, connect}
use mip_clients.Client.System.State.{free, dialling, greeting, System, Event, dialled, greet}
use mip_clients.Client.System.Turns.{connect_at, dialled_at, greet_at}
use mip_clients.Client.System.{
  step, run, with_client, opened, connect_turn, dialled_turn, greet_turn,
}

module _ {Chan : Type 0} (bitflags : Bitflags) {mpsc : Mpsc Chan} (receiver : Receiver mpsc) where
  first_step :
      (s s' : System Chan) (e : Event) (es : List Event)
      → step bitflags mpsc receiver s e ≡ s'
      → run bitflags mpsc receiver s (e ∷ es) ≡ run bitflags mpsc receiver s' es
  unfolding run
  first_step s s' e es q = ap (λ t. run bitflags mpsc receiver t es) q

  -- The events of a call of `connect`, with nothing in between.
  abbrev pub connect_run : System Chan → Dialled → Reading → System Chan
  connect_run s d now = run bitflags mpsc receiver s (Event.connect ∷ dialled d ∷ greet now ∷ [])

  -- What they leave, of a call of `connect` in the same state.
  abbrev pub Connects : System Chan → Dialled → Reading → System Chan → Type 0
  Connects s d now s' =
      let out = connect mpsc s.world d now in
      (s'.world ≡ out.1) × (s'.calls ≡ s.calls ++ out.2) × (s'.user ≡ free)

  run_three :
      (s s1 s2 s3 : System Chan) (e1 e2 e3 : Event)
      → step bitflags mpsc receiver s e1 ≡ s1
      → step bitflags mpsc receiver s1 e2 ≡ s2
      → step bitflags mpsc receiver s2 e3 ≡ s3
      → run bitflags mpsc receiver s (e1 ∷ e2 ∷ e3 ∷ []) ≡ s3
  unfolding run
  run_three s s1 s2 s3 e1 e2 e3 p q r =
      first_step s s1 e1 (e2 ∷ e3 ∷ []) p ∙ first_step s1 s2 e2 (e3 ∷ []) q ∙ r

  unfoldable pub started : System Chan → System Chan
  started s = record (with_client s (record s.world.client { running = true })) { user = dialling }

  connect_on :
      (s : System Chan)
      → s.world.client.connected ≡ true
      → connect_turn bitflags mpsc receiver free s ≡ s
  unfolding connect_turn started
  connect_on s e = ap (λ b. if b then s else started s) e

  connect_off :
      (s : System Chan)
      → s.world.client.connected ≡ false
      → connect_turn bitflags mpsc receiver free s ≡ started s
  unfolding connect_turn started
  connect_off s e = ap (λ b. if b then s else started s) e

  Connects-on :
      (s : System Chan) (d : Dialled) (now : Reading)
      → s.user ≡ free
      → s.world.client.connected ≡ true
      → Connects s d now s
  unfolding connect
  Connects-on s d now e on = rw on (refl, sym (append-nil s.calls), e)

  pub run_on :
      (s : System Chan) (d : Dialled) (now : Reading)
      → s.user ≡ free
      → s.world.client.connected ≡ true
      → connect_run s d now ≡ s
  unfolding dialled_turn greet_turn
  run_on s d now e on =
      run_three s s s s Event.connect (dialled d) (greet now)
        (connect_at bitflags receiver s free e ∙ connect_on s on)
        (dialled_at bitflags receiver s free d e) (greet_at bitflags receiver s free now e)

  pub run_refused :
      (s : System Chan) (text : Text) (now : Reading)
      → s.user ≡ free
      → s.world.client.connected ≡ false
      → connect_run s (some text) now ≡ record (started s) { user = free }
  unfolding dialled_turn greet_turn
  run_refused s text now e off =
      let s2 = record (started s) { user = free } in
      run_three s (started s) s2 s2 Event.connect (dialled (some text)) (greet now)
        (connect_at bitflags receiver s free e ∙ connect_off s off)
        (dialled_at bitflags receiver (started s) dialling (some text) (unfold started in refl))
        (greet_at bitflags receiver s2 free now refl)

  pub run_opened :
      (s : System Chan) (now : Reading)
      → s.user ≡ free
      → s.world.client.connected ≡ false
      → connect_run s none now
        ≡ greet_turn bitflags mpsc receiver greeting (opened bitflags mpsc receiver (started s)) now
  unfolding dialled_turn
  run_opened s now e off =
      let s2 = opened bitflags mpsc receiver (started s) in
      let s3 = greet_turn bitflags mpsc receiver greeting s2 now in
      run_three s (started s) s2 s3 Event.connect (dialled none) (greet now)
        (connect_at bitflags receiver s free e ∙ connect_off s off)
        (dialled_at bitflags receiver (started s) dialling none (unfold started in refl))
        (greet_at bitflags receiver s2 greeting now (unfold opened in refl))

  Connects-run_off :
      (s : System Chan) (d : Dialled) (now : Reading)
      → s.user ≡ free
      → s.world.client.connected ≡ false
      → Connects s d now (connect_run s d now)
  unfolding greet_turn
  Connects-run_off s (some text) now e off =
      subst (Connects s (some text) now) (sym (run_refused s text now e off))
        (unfold connect started in rw off (refl, sym (append-nil s.calls), refl))
  Connects-run_off s none now e off =
      subst (Connects s none now) (sym (run_opened s now e off))
        (unfold connect started opened in rw off (refl, refl, refl))

  -- From a state in which no call is under way, the events of `connect` with no other between them
  -- leave the client, the channels and the calls of callbacks that the whole call leaves.
  pub connect-run :
      (s : System Chan) (d : Dialled) (now : Reading)
      → s.user ≡ free
      → Connects s d now (connect_run s d now)
  connect-run s d now e = elim (Bool-cases s.world.client.connected) [
    | inl on ↦ subst (Connects s d now) (sym (run_on s d now e on)) (Connects-on s d now e on)
    | inr off ↦ Connects-run_off s d now e off
  ]
