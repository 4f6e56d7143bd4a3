-- ===== src/Client/Tasks/Pings.antt =====
-- What the ping task queues (internals.rs, `spawn_ping_task`).
use mip_clients.Common.{
  ℕ, ◌≡◌, ◌≤◌, refl, sym, ap, ◌∙◌, true, false, List, [], ◌∷◌, ◌++◌, map, some, length, append-nil,
  append_assoc, arith,
}
use mip_clients.Client.Sending.{ClientCommand, send, Mpsc, Reading, generate_msg_id, send_await}
use mip_clients.Client.Sending.Ids.{generate_all}
use mip_clients.Client.Sending.Queueing.{send_await-open}
use mip_clients.Client.State.{MipClient}
use mip_clients.Client.Tasks.{ticking, pinging, Pinger, ping_frame, ping_tick, ping_step, ping_sent}

abbrev pub ping_command : ℕ → ClientCommand
ping_command id = send (ping_frame id)

module _ {Chan : Type 0} (mpsc : Mpsc Chan) where
  -- The task at the given ticks, each with the step that sends.
  unfoldable pub ping_run : Pinger Chan → List Reading → Pinger Chan
  ping_run p [] = p
  ping_run p (now ∷ later) = ping_run (ping_step mpsc (ping_step mpsc p now) now) later

  -- The client with an id taken.
  abbrev pub pinged : MipClient → Reading → MipClient
  pinged c now = record c { msg_id_counter = (generate_msg_id c.msg_id_counter now).1 }

  pub tick_live :
      (c : MipClient) (chan : Chan) (now : Reading)
      → c.connected ≡ true
      → c.running ≡ true
      → ping_step mpsc (ticking, c, chan) now
        ≡ (pinging (ping_frame (generate_msg_id c.msg_id_counter now).0), pinged c now, chan)
  unfolding ping_step ping_tick
  tick_live c chan now on r = rw (on, r)

  pub send_live :
      (c : MipClient) (chan d : Chan) (id : ℕ) (now : Reading)
      → send_await mpsc chan (ping_command id) ≡ some d
      → ping_step mpsc (pinging (ping_frame id), c, chan) now ≡ (ticking, c, d)
  unfolding ping_step ping_sent
  send_live c chan d id now e = rw e

  round_live :
      (c : MipClient) (chan d : Chan) (now : Reading) (later : List Reading)
      → c.connected ≡ true
      → c.running ≡ true
      → send_await mpsc chan (ping_command (generate_msg_id c.msg_id_counter now).0) ≡ some d
      → ping_run (ticking, c, chan) (now ∷ later) ≡ ping_run (ticking, pinged c now, d) later
  unfolding ping_run
  round_live c chan d now later on r e =
      ap (λ p. ping_run p later)
        (ap (λ p. ping_step mpsc p now) (tick_live c chan now on r)
          ∙ send_live (pinged c now) chan d (generate_msg_id c.msg_id_counter now).0 now e)

  -- A ping task whose client stays connected and running, on an open channel with a place for each
  -- tick that nobody empties, queues one PING for each tick behind what was queued, with the ids of
  -- successive calls of `generate_msg_id`, and then waits for the next tick.
  pub ping_run-generate_all :
      (nows : List Reading) (c : MipClient) (chan : Chan)
      → c.connected ≡ true
      → c.running ≡ true
      → mpsc.is_closed chan ≡ false
      → length nows ≤ mpsc.capacity chan
      → let (phase, c', d) = ping_run (ticking, c, chan) nows in
        (phase ≡ ticking)
        × (mpsc.queued d
            ≡ mpsc.queued chan ++ map ping_command (generate_all c.msg_id_counter nows))
  unfolding generate_all
  ping_run-generate_all [] c chan on r open_ room =
      unfold ping_run in (refl, sym (append-nil (mpsc.queued chan)))
  ping_run-generate_all (now ∷ later) c chan on r open_ room =
      let id = (generate_msg_id c.msg_id_counter now).0 in
      let (d, e, q, k, f) = mpsc.try_send-some chan (ping_command id) open_ (omega arith) in
      let more = map ping_command (generate_all (pinged c now).msg_id_counter later) in
      let (p, rest) = ping_run-generate_all later (pinged c now) d on r f (omega arith) in
      rw
        (round_live c chan d now later on r (send_await-open mpsc chan (ping_command id) open_ ∙ e))
        (
          p,
          rest
              ∙ ap (λ xs. xs ++ more) q
              ∙ append_assoc (mpsc.queued chan) (ping_command id ∷ []) more,
        )
