-- ===== src/Client/System/DisconnectCall.antt =====
-- The whole call `disconnect` of Client/Connection.antt is a run of the system in which no other event
-- comes between its parts (mod.rs).
use mip_clients.Common.{
  ℕ, ◌≡◌, refl, sym, ap, ◌∙◌, true, false, Bytes, List, [], ◌∷◌, Option, none, some, Option-cases,
  Bool-cases, inl, inr,
}
use mip_clients.Protocol.{Bitflags}
use mip_clients.Client.Sending.{ClientCommand, send, Mpsc, Receiver, Reading, generate_msg_id}
use mip_clients.Client.Events.{Call}
use mip_clients.Client.Api.{World}
use mip_clients.Client.Connection.{
  close_frame, send_to, send_close_internal, send_disconnect, disconnect_client, disconnect_close,
  disconnect_finish, disconnect_begin,
}
use mip_clients.Client.System.State.{
  free, closing, sending, leaving, cleaning, System, Event, disconnect_called, close, delivered,
  finish,
}
use mip_clients.Client.System.Turns.{disconnect_at, close_at, delivered_at, finish_at}
use mip_clients.Client.System.{
  step, run, with_client, disconnect_turn, close_on, cleaned, delivered_turn, sent, finish_turn,
}

module _ {Chan : Type 0} (bitflags : Bitflags) {mpsc : Mpsc Chan} (receiver : Receiver mpsc) where
  -- The events of a call of `disconnect`, with nothing in between.
  abbrev pub disconnect_run : System Chan → Reading → System Chan
  disconnect_run s now =
      run bitflags mpsc receiver s
        (disconnect_called ∷ close now ∷ delivered ∷ delivered ∷ finish ∷ [])

  run_five :
      (s s1 s2 s3 s4 s5 : System Chan) (e1 e2 e3 e4 e5 : Event)
      → step bitflags mpsc receiver s e1 ≡ s1
      → step bitflags mpsc receiver s1 e2 ≡ s2
      → step bitflags mpsc receiver s2 e3 ≡ s3
      → step bitflags mpsc receiver s3 e4 ≡ s4
      → step bitflags mpsc receiver s4 e5 ≡ s5
      → run bitflags mpsc receiver s (e1 ∷ e2 ∷ e3 ∷ e4 ∷ e5 ∷ []) ≡ s5
  unfolding run
  run_five s s1 s2 s3 s4 s5 e1 e2 e3 e4 e5 p1 p2 p3 p4 p5 =
      ap (λ t. run bitflags mpsc receiver t (e2 ∷ e3 ∷ e4 ∷ e5 ∷ [])) p1
      ∙ ap (λ t. run bitflags mpsc receiver t (e3 ∷ e4 ∷ e5 ∷ [])) p2
      ∙ ap (λ t. run bitflags mpsc receiver t (e4 ∷ e5 ∷ [])) p3
      ∙ ap (λ t. run bitflags mpsc receiver t (e5 ∷ [])) p4
      ∙ p5

  begun : System Chan → System Chan
  begun s = record (with_client s (disconnect_begin mpsc s.world.client)) { user = closing }

  -- What the end of the call makes of the state in which the write task is waited for.
  finished : System Chan → System Chan
  finished s = finish_turn bitflags mpsc receiver cleaning s

  gone : System Chan → World Chan → System Chan
  gone s v = record (cleaned bitflags mpsc receiver s) { world = v }

  -- The world at the return, and the calls of callbacks.
  abbrev Ends : System Chan → World Chan → List Call → Type 0
  Ends s w calls = (s.world ≡ w) × (s.user ≡ free) × (s.calls ≡ calls)

  finished-Ends :
      (s : System Chan) (w : World Chan)
      → disconnect_finish mpsc (some s.world) ≡ some w
      → Ends (finished s) w s.calls
  unfolding finished finish_turn disconnect_finish
  finished-Ends s w e = (cc, refl, refl)

  -- In the wait for the write task nothing more is sent.
  delivered_cleaning :
      (t : System Chan) → t.user ≡ cleaning → step bitflags mpsc receiver t delivered ≡ t
  unfolding delivered_turn
  delivered_cleaning t e = delivered_at bitflags receiver t cleaning e

  Ends-run :
      (s s2 s3 s4 : System Chan) (now : Reading) (w : World Chan) (tx : Option ℕ)
      → s.user ≡ free
      → s.world.client.command_tx ≡ tx
      → close_on bitflags mpsc receiver tx (begun s) now ≡ s2
      → step bitflags mpsc receiver s2 delivered ≡ s3
      → step bitflags mpsc receiver s3 delivered ≡ s4
      → s4.user ≡ cleaning
      → Ends (finished s4) w s.calls
      → Ends (disconnect_run s now) w s.calls
  unfolding begun disconnect_begin disconnect_turn
  Ends-run s s2 s3 s4 now w tx u t c d3 d4 f h =
      rw
        (run_five s (begun s) s2 s3 s4 (finished s4) disconnect_called (close now) delivered
          delivered finish (disconnect_at bitflags receiver s u)
          (close_at bitflags receiver (begun s) now refl
            ∙ ap (λ o. close_on bitflags mpsc receiver o (begun s) now) t
            ∙ c)
          d3 d4 (unfold finished in finish_at bitflags receiver s4 f))
        h

  -- The whole call, by the sender.
  call_on :
      (s : System Chan) (now : Reading) (w : World Chan) (tx : Option ℕ)
      → s.world.client.command_tx ≡ tx
      → disconnect_client mpsc s.world now ≡ some w
      → disconnect_finish mpsc (disconnect_close mpsc (begun s).world now tx) ≡ some w
  unfolding disconnect_client begun
  call_on s now w tx t e =
      sym (ap (λ o. disconnect_finish mpsc (disconnect_close mpsc (begun s).world now o)) t) ∙ e

  Ends-none :
      (s : System Chan) (now : Reading) (w : World Chan)
      → s.user ≡ free
      → s.world.client.command_tx ≡ none
      → disconnect_client mpsc s.world now ≡ some w
      → Ends (disconnect_run s now) w s.calls
  Ends-none s now w u tx e =
      let s2 = cleaned bitflags mpsc receiver (begun s) in
      let still = delivered_cleaning s2 (unfold cleaned in refl) in
      Ends-run s s2 s2 s2 now w none u tx (unfold close_on in refl) still still
        (unfold cleaned in refl)
        (unfold cleaned begun in
          finished-Ends s2 w (unfold cleaned disconnect_close in call_on s now w none tx e))

  -- `Disconnect` is sent from `t`, whatever was sent before.
  Ends-leaving :
      (t : System Chan) (w : World Chan) (o : Option (World Chan))
      → t.user ≡ leaving
      → send_to mpsc t.world ClientCommand.disconnect ≡ o
      → disconnect_finish mpsc o ≡ some w
      → (v : World Chan) × (step bitflags mpsc receiver t delivered ≡ gone t v)
        × Ends (finished (gone t v)) w t.calls
  unfolding disconnect_finish
  Ends-leaving t w none u f e = let impossible : ⊥ = cc in absurd impossible
  Ends-leaving t w (some v) u f e = (
    v,
    delivered_at bitflags receiver t leaving u
        ∙ unfold delivered_turn sent gone in
          ap (λ o. sent bitflags mpsc receiver o t (cleaned bitflags mpsc receiver t)) f,
    unfold gone cleaned in finished-Ends (gone t v) w (unfold gone in e),
  )

  gone-cleaning : (t : System Chan) (v : World Chan) → (gone t v).user ≡ cleaning
  unfolding gone cleaned
  gone-cleaning t v = refl

  Ends-off :
      (s : System Chan) (now : Reading) (w : World Chan) (i : ℕ)
      → s.user ≡ free
      → s.world.client.command_tx ≡ some i
      → s.world.client.connected ≡ false
      → disconnect_client mpsc s.world now ≡ some w
      → Ends (disconnect_run s now) w s.calls
  Ends-off s now w i u tx off e =
      let s2 = record (begun s) { user = leaving } in
      let unsent : send_close_internal mpsc (begun s).world now ≡ some (begun s).world =
        unfold send_close_internal begun disconnect_begin in rw off in
      let (v, p, h) = Ends-leaving s2 w _ refl refl (
        unfold disconnect_close send_disconnect in
        (sym (ap (λ o. disconnect_finish mpsc (send_disconnect mpsc o)) unsent)
          ∙ call_on s now w (some i) tx e)) in
      Ends-run s s2 (gone s2 v) (gone s2 v) now w (some i) u tx
        (unfold close_on begun disconnect_begin in rw off) p
        (delivered_cleaning (gone s2 v) (gone-cleaning s2 v)) (gone-cleaning s2 v)
        (unfold begun in h)

  -- CLOSE is sent from `t`, then `Disconnect`.
  Ends-sending :
      (t : System Chan) (frame : Bytes) (w : World Chan) (o : Option (World Chan))
      → t.user ≡ sending frame
      → send_to mpsc t.world (send frame) ≡ o
      → disconnect_finish mpsc (send_disconnect mpsc o) ≡ some w
      → (u v : World Chan) × (step bitflags mpsc receiver t delivered
          ≡ record t { user = leaving; world = u })
        × (step bitflags mpsc receiver (record t { user = leaving; world = u }) delivered
            ≡ gone (record t { user = leaving; world = u }) v)
        × Ends (finished (gone (record t { user = leaving; world = u }) v)) w t.calls
  unfolding send_disconnect disconnect_finish
  Ends-sending t frame w none a f e = let impossible : ⊥ = cc in absurd impossible
  Ends-sending t frame w (some u) a f e =
      let (v, p, h) = Ends-leaving (record t { user = leaving; world = u }) w _ refl refl e in
      (
        u,
        v,
        delivered_at bitflags receiver t (sending frame) a
            ∙ unfold delivered_turn sent in
              ap (λ o. sent bitflags mpsc receiver o t (record t { user = leaving })) f,
        p,
        h,
      )

  Ends-on :
      (s : System Chan) (now : Reading) (w : World Chan) (i : ℕ)
      → s.user ≡ free
      → s.world.client.command_tx ≡ some i
      → s.world.client.connected ≡ true
      → disconnect_client mpsc s.world now ≡ some w
      → Ends (disconnect_run s now) w s.calls
  Ends-on s now w i a tx on e =
      let c = disconnect_begin mpsc s.world.client in
      let (id, counter) = generate_msg_id c.msg_id_counter now in
      let s2 = record (with_client (begun s) (record c { msg_id_counter = counter })) {
        user = sending (close_frame id);
      } in
      let sends : send_close_internal mpsc (begun s).world now
          ≡ send_to mpsc s2.world (send (close_frame id)) =
        unfold send_close_internal begun disconnect_begin in rw on in
      let (u, v, p, q, h) = Ends-sending s2 (close_frame id) w _ refl refl (
        unfold disconnect_close in
        (sym (ap (λ o. disconnect_finish mpsc (send_disconnect mpsc o)) sends)
          ∙ call_on s now w (some i) tx e)) in
      let s3 = record s2 { user = leaving; world = u } in
      Ends-run s s2 s3 (gone s3 v) now w (some i) a tx
        (unfold close_on begun disconnect_begin in rw on) p q (gone-cleaning s3 v)
        (unfold begun in h)

  -- From a state in which no call is under way, the events of `disconnect` with no other between them
  -- leave the client and the channels that the whole call leaves, where that returns, and no callback has
  -- been called.
  pub disconnect_client-run :
      (s : System Chan) (now : Reading) (w : World Chan)
      → s.user ≡ free
      → disconnect_client mpsc s.world now ≡ some w
      → ((disconnect_run s now).world ≡ w)
        × ((disconnect_run s now).user ≡ free)
        × ((disconnect_run s now).calls ≡ s.calls)
  disconnect_client-run s now w u e = elim (Option-cases s.world.client.command_tx) [
    | inl tx ↦ Ends-none s now w u tx e
    | inr (i, tx) ↦ elim (Bool-cases s.world.client.connected) [
      | inl on ↦ Ends-on s now w i u tx on e
      | inr off ↦ Ends-off s now w i u tx off e
    ]
  ]
