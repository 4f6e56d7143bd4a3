-- ===== src/Client/Connection/Goodbye.antt =====
-- What `disconnect` queues before it takes the sender away (mod.rs), and what the write task then
-- writes (internals.rs).
use mip_clients.Common.{
  ℕ, suc, ◌≡◌, ◌≤◌, refl, ap, ◌∙◌, true, false, Bytes, List, [], ◌∷◌, ◌++◌, some, arith,
  append_assoc, append-nil, map, Option-cases, inl, inr, length, replicate,
}
use mip_clients.Client.Sending.{
  ClientCommand, send, Mpsc, Receiver, Reading, generate_msg_id, send_await,
}
use std.Path.{subst}
use mip_clients.Client.Sending.Queueing.{send_await-open}
use mip_clients.Client.Tasks.{Writer, wrote_all}
use mip_clients.Client.Tasks.Writes.{
  concat, bytes_of-append, bytes_of, write_run, write_run-bytes_of,
}
use mip_clients.Client.Api.{World, tx_channel, store_channel}
use mip_clients.Client.Api.Outcomes.{stored}
use mip_clients.Client.Connection.Disconnect.{IsDisconnected, disconnect_client-IsDisconnected}
use mip_clients.Client.Connection.{
  close_frame, send_to, send_found, put_back, send_close_internal, send_disconnect,
  disconnect_client, disconnect_begin, disconnect_end, disconnect_finish, disconnect_close,
}

module _ {Chan : Type 0} (mpsc : Mpsc Chan) where
  -- The channel behind a sender, open, with room for some commands at least.
  pub record Open (w : World Chan) (room : ℕ) (c : Chan) : Type 0 where
    pub found : tx_channel w.channels w.client.command_tx ≡ some c
    pub opened : mpsc.is_closed c ≡ false
    pub room_left : room ≤ mpsc.capacity c

  -- The world with another channel behind the sender.
  abbrev behind : World Chan → Chan → World Chan
  behind w d = record w { channels = store_channel w.channels w.client.command_tx (some d) }

  send_to-found :
      (w : World Chan) (x : ClientCommand) (c d : Chan)
      → tx_channel w.channels w.client.command_tx ≡ some c
      → send_await mpsc c x ≡ some d
      → send_to mpsc w x ≡ some (behind w d)
  unfolding send_to send_found put_back
  send_to-found w x c d found e = ap (λ o. send_found mpsc w o x) found ∙ ap (put_back mpsc w) e

  -- A command sent on an open channel with room stands behind what was queued.
  send_to-Open :
      (w : World Chan) (x : ClientCommand) (room : ℕ) (c : Chan)
      → Open w (suc room) c
      → (d : Chan) × (send_to mpsc w x ≡ some (behind w d))
        × (mpsc.queued d ≡ mpsc.queued c ++ (x ∷ []))
        × Open (behind w d) room d
  send_to-Open w x room c o =
      let (d, e, q, r, f) = mpsc.try_send-some c x o.opened (omega (arith, o.room_left)) in
      (
        d,
        send_to-found w x c d o.found (send_await-open mpsc c x o.opened ∙ e),
        q,
        record {
          found = stored mpsc w.channels w.client.command_tx c d o.found;
          opened = f;
          room_left = omega (arith, o.room_left, r);
        },
      )

  -- The world whose counter a new id has moved on.
  abbrev counted : World Chan → Reading → World Chan
  counted w now = record w {
    client = record w.client { msg_id_counter = (generate_msg_id w.client.msg_id_counter now).1 };
  }

  close_sent :
      (w : World Chan) (now : Reading)
      → w.client.connected ≡ true
      → send_close_internal mpsc w now
        ≡ send_to mpsc
            (counted w now)
            (send (close_frame (generate_msg_id w.client.msg_id_counter now).0))
  unfolding send_close_internal
  close_sent w now h = rw h

  abbrev begun : World Chan → World Chan
  begun w = record w { client = disconnect_begin mpsc w.client }

  disconnect_parts :
      (w : World Chan) (now : Reading) (i : ℕ) (u v : World Chan)
      → w.client.command_tx ≡ some i
      → send_close_internal mpsc (begun w) now ≡ some u
      → send_to mpsc u ClientCommand.disconnect ≡ some v
      → disconnect_client mpsc w now ≡ some (record v { client = disconnect_end mpsc v.client })
  unfolding disconnect_client disconnect_close disconnect_finish send_disconnect
  disconnect_parts w now i u v tx e f =
      ap (λ o. disconnect_finish mpsc (disconnect_close mpsc (begun w) now o)) tx
      ∙ ap (λ o. disconnect_finish mpsc (send_disconnect mpsc o)) e
      ∙ ap (disconnect_finish mpsc) f

  -- What a `disconnect` that found room has done.
  pub record Goodbye (w w' : World Chan) (now : Reading) (c d : Chan) : Type 0 where
    pub returned : disconnect_client mpsc w now ≡ some w'
    pub disconnected : IsDisconnected mpsc w'
    pub kept : tx_channel w'.channels w.client.command_tx ≡ some d
    pub last :
        mpsc.queued d
        ≡ mpsc.queued c
          ++ (send (close_frame (generate_msg_id w.client.msg_id_counter now).0)
              ∷ ClientCommand.disconnect
              ∷ [])

  Goodbye-from :
      (w : World Chan) (now : Reading) (c : Chan) (i : ℕ)
      → w.client.command_tx ≡ some i
      → Open w 2 c
      → w.client.connected ≡ true
      → (w' : World Chan) × (d : Chan) × Goodbye w w' now c d
  unfolding disconnect_begin disconnect_end
  Goodbye-from w now c i tx o on =
      let id = (generate_msg_id w.client.msg_id_counter now).0 in
      let w1 = counted (begun w) now in
      let (d1, e1, q1, o1) =
        send_to-Open w1 (send (close_frame id)) 1 c
          (record { found = o.found; opened = o.opened; room_left = o.room_left }) in
      let (d2, e2, q2, o2) = send_to-Open (behind w1 d1) ClientCommand.disconnect 0 d1 o1 in
      let v = behind (behind w1 d1) d2 in
      let e = disconnect_parts w now i (behind w1 d1) v tx (close_sent (begun w) now on ∙ e1) e2 in
      (
        record v { client = disconnect_end mpsc v.client },
        d2,
        record {
          returned = e;
          disconnected = (disconnect_client-IsDisconnected mpsc w _ now e).0;
          kept = o2.found;
          last =
              q2
              ∙ ap (λ xs. xs ++ (ClientCommand.disconnect ∷ [])) q1
              ∙ append_assoc (mpsc.queued c) _ _;
        },
      )

  -- `disconnect` on a connected client whose channel is open and has two places returns; the client is
  -- then disconnected, and behind what was queued stand CLOSE, with a fresh id, and `Disconnect`.
  pub disconnect_client-Goodbye :
      (w : World Chan) (now : Reading) (c : Chan)
      → Open w 2 c
      → w.client.connected ≡ true
      → (w' : World Chan) × (d : Chan) × Goodbye w w' now c d
  disconnect_client-Goodbye w now c o on = elim (Option-cases w.client.command_tx) [
    | inl e ↦ let q = subst (λ tx. tx_channel w.channels tx ≡ some c) e o.found in cc
    | inr (i, e) ↦ Goodbye-from w now c i e o on
  ]

module _ {Chan : Type 0} (mpsc : Mpsc Chan) (receiver : Receiver mpsc) where
  -- After such a `disconnect`, on a channel that holds frames only, a write task that runs on with
  -- writes that succeed has written all those frames, in the order queued, and then CLOSE, last.
  pub disconnect_client-write_run :
      (w : World Chan) (now : Reading) (c : Chan) (frames : List Bytes) (t : Writer)
      → Open mpsc w 2 c
      → w.client.connected ≡ true
      → mpsc.queued c ≡ map send frames
      → t.active ≡ true
      → (w' : World Chan) × (d : Chan) × (disconnect_client mpsc w now ≡ some w')
        × (tx_channel w'.channels w.client.command_tx ≡ some d)
        × ((write_run receiver t d (replicate (length (mpsc.queued d)) wrote_all)).0.written
            ≡ t.written
              ++ (concat frames ++ close_frame (generate_msg_id w.client.msg_id_counter now).0))
  disconnect_client-write_run w now c frames t o on q a =
      let (w', d, g) = disconnect_client-Goodbye mpsc w now c o on in
      let id = (generate_msg_id w.client.msg_id_counter now).0 in
      let farewell = send (close_frame id) ∷ ClientCommand.disconnect ∷ [] in
      let sent : bytes_of (mpsc.queued d) ≡ concat frames ++ close_frame id =
        ap bytes_of (g.last ∙ ap (λ xs. xs ++ farewell) q)
        ∙ bytes_of-append frames farewell
        ∙ ap (λ x. concat frames ++ x) (append-nil (close_frame id)) in
      (
        w',
        d,
        g.returned,
        g.kept,
        write_run-bytes_of receiver (mpsc.queued d) t d a refl ∙ ap (λ x. t.written ++ x) sent,
      )
