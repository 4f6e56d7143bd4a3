-- ===== src/Client/Tasks/Visits.antt =====
-- The ping task of a client that others change between its ticks (internals.rs, `spawn_ping_task`).
use mip_clients.Common.{
  ◌≡◌, ◌≤◌, refl, sym, ap, ◌∙◌, Bool, true, false, ◌&&◌, List, [], ◌∷◌, ◌++◌, some, length,
  append-nil, append_assoc, if◌then◌else◌, Bool-cases, inl, inr, arith,
}
use mip_clients.Client.Sending.{ClientCommand, Mpsc, Reading, generate_msg_id, send_await}
use mip_clients.Client.Sending.Queueing.{send_await-open}
use mip_clients.Client.State.{MipClient}
use mip_clients.Client.Tasks.{PingPhase, ticking, stopped, ping_tick, ping_step}
use mip_clients.Client.Tasks.Pings.{ping_command, pinged, tick_live, send_live}

-- A tick: the client as it stands then, and what the clock reads.
abbrev pub Visit : Type 0
Visit = MipClient × Reading

abbrev pub is_live : Visit → Bool
is_live (c, now) = c.connected && c.running

abbrev pub all_live : List Visit → Bool
all_live [] = true
all_live (v ∷ later) = is_live v && all_live later

-- One PING for each tick up to the first at which the client is not live, with the id of that tick.
abbrev pub pings_of : List Visit → List ClientCommand
pings_of [] = []
pings_of ((c, now) ∷ later) =
    if is_live (c, now)
    then ping_command (generate_msg_id c.msg_id_counter now).0 ∷ pings_of later
    else []

module _ {Chan : Type 0} (mpsc : Mpsc Chan) where
  -- The task at the given ticks, each with the step that sends.
  unfoldable pub ping_visits : PingPhase → Chan → List Visit → PingPhase × Chan
  ping_visits phase chan [] = (phase, chan)
  ping_visits phase chan ((c, now) ∷ later) =
      let (phase', _, d) = ping_step mpsc (ping_step mpsc (phase, c, chan) now) now in
      ping_visits phase' d later

  stopped_visits : (chan : Chan) (vs : List Visit) → ping_visits stopped chan vs ≡ (stopped, chan)
  unfolding ping_visits ping_step
  stopped_visits chan [] = refl
  stopped_visits chan (v ∷ later) = stopped_visits chan later

  visit_off :
      (c : MipClient) (chan : Chan) (now : Reading) (later : List Visit)
      → is_live (c, now) ≡ false
      → ping_visits ticking chan ((c, now) ∷ later) ≡ (stopped, chan)
  unfolding ping_visits ping_step ping_tick
  visit_off c chan now later off =
      let tick : ping_step mpsc (ticking, c, chan) now ≡ (stopped, c, chan) = ground arith in
      ap (λ p. let (phase, _, d) = ping_step mpsc p now in ping_visits phase d later) tick
      ∙ stopped_visits chan later

  visit_on :
      (c : MipClient) (chan d : Chan) (now : Reading) (later : List Visit)
      → is_live (c, now) ≡ true
      → send_await mpsc chan (ping_command (generate_msg_id c.msg_id_counter now).0) ≡ some d
      → ping_visits ticking chan ((c, now) ∷ later) ≡ ping_visits ticking d later
  unfolding ping_visits
  visit_on c chan d now later on e =
      let connected : c.connected ≡ true = ground arith in
      let running : c.running ≡ true = ground arith in
      let id = (generate_msg_id c.msg_id_counter now).0 in
      ap (λ p. ping_visits p.0 p.2 later)
        (ap (λ p. ping_step mpsc p now) (tick_live mpsc c chan now connected running)
          ∙ send_live mpsc (pinged mpsc c now) chan d id now e)

  -- A ping task, with the client at each tick as others have left it, on an open channel with a place for
  -- each tick that nobody empties: it queues, behind what was queued, one PING for each tick up to the
  -- first at which the client is not connected or not running, each with the id that its own tick
  -- generates; there it stops, and queues nothing at any later tick, also where the client has connected
  -- again by then. If there is no such tick it waits for the next one.
  pub ping_visits-pings_of :
      (vs : List Visit) (chan : Chan)
      → mpsc.is_closed chan ≡ false
      → length vs ≤ mpsc.capacity chan
      → let (phase, d) = ping_visits ticking chan vs in
        (phase ≡ (if all_live vs then ticking else stopped))
        × (mpsc.queued d ≡ mpsc.queued chan ++ pings_of vs)
  ping_visits-pings_of [] chan o room =
      unfold ping_visits in (refl, sym (append-nil (mpsc.queued chan)))
  ping_visits-pings_of ((c, now) ∷ later) chan o room = elim (Bool-cases (is_live (c, now))) [
    | inl on ↦
        let id = (generate_msg_id c.msg_id_counter now).0 in
        let (d, e, q, k, f) = mpsc.try_send-some chan (ping_command id) o (omega arith) in
        let (p, rest) = ping_visits-pings_of later d f (omega arith) in
        rw (visit_on c chan d now later on (send_await-open mpsc chan (ping_command id) o ∙ e), on)
          (
            p,
            rest
                ∙ ap (λ xs. xs ++ pings_of later) q
                ∙ append_assoc (mpsc.queued chan) (ping_command id ∷ []) (pings_of later),
          )
    | inr off ↦ rw (visit_off c chan now later off, off) (refl, sym (append-nil (mpsc.queued chan)))
  ]
