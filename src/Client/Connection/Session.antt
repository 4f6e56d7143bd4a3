-- ===== src/Client/Connection/Session.antt =====
-- A session: a client that has connected and sends frames, one call after the other (mod.rs).
use mip_clients.Common.{
  ℕ, suc, ◌≡◌, refl, sym, ap, ◌∙◌, true, false, Bytes, List, [], ◌∷◌, ◌++◌, map, some, ok, none,
  length, arith,
}
use std.Path.{subst}
use mip_clients.Protocol.{FrameType, FrameFlags, no_flags}
use mip_clients.Client.Events.{Call}
use mip_clients.Client.Sending.{send, Mpsc, Reading, generate_msg_id, build_frame, send_frame}
use mip_clients.Client.Sending.Queueing.{send_frame-ready}
use mip_clients.Client.Api.{World, tx_channel, store_channel, send_raw_frame}
use mip_clients.Client.Api.Outcomes.{stored}
use mip_clients.Client.Connection.{connect, connect_open}
use mip_clients.Client.Connection.Laws.{opened, opened_channel, connect_parts, hello_ok}
use mip_clients.Client.Connection.Goodbye.{Open}

map-send_last :
    (bs : List Bytes) (b : Bytes) → map send bs ++ (send b ∷ []) ≡ map send (bs ++ (b ∷ []))
map-send_last [] b = refl
map-send_last (a ∷ bs) b = ap (λ xs. send a ∷ xs) (map-send_last bs b)

module _ {Chan : Type 0} (mpsc : Mpsc Chan) where
  -- A connected client with room for so many frames, whose channel holds those sent so far.
  pub record InSession (w : World Chan) (tx room counter : ℕ) (frames : List Bytes) : Type 0 where
    pub chan : Chan
    pub named : w.client.command_tx ≡ some tx
    pub opened : Open mpsc w room chan
    pub connected : w.client.connected ≡ true
    pub counted : w.client.msg_id_counter ≡ counter
    pub queued : mpsc.queued chan ≡ map send frames

  -- The world after a frame that was accepted.
  abbrev sent_world : World Chan → Reading → Chan → World Chan
  sent_world w now d = record {
    client = record w.client { msg_id_counter = (generate_msg_id w.client.msg_id_counter now).1 };
    channels = store_channel w.channels w.client.command_tx (some d);
  }

  module _ (w : World Chan) (now : Reading) (t : FrameType) (p : Bytes) (f : FrameFlags) where
    send_found_frame :
        (c d : Chan)
        → tx_channel w.channels w.client.command_tx ≡ some c
        → send_frame mpsc (some c) w.client.connected w.client.msg_id_counter now t p f ≡ record {
          result = ok (generate_msg_id w.client.msg_id_counter now).0;
          tx = some d;
          counter = (generate_msg_id w.client.msg_id_counter now).1;
        }
        → send_raw_frame mpsc w now t p f
          ≡ (ok (generate_msg_id w.client.msg_id_counter now).0, sent_world w now d)
    unfolding send_raw_frame
    send_found_frame c d found e = rw (found, e) refl

    -- The next frame of a session is accepted, and takes a place.
    pub send_raw_frame-InSession :
        (tx room counter : ℕ) (frames : List Bytes)
        → InSession w tx (suc room) counter frames
        → let (id, counter') = generate_msg_id counter now in
          let out = send_raw_frame mpsc w now t p f in
          (out.0 ≡ ok id) × InSession out.1 tx room counter' (frames ++ (build_frame t p f id ∷ []))
    send_raw_frame-InSession tx room counter frames s =
        let c = s.chan in
        let k = s.counted in
        let id = (generate_msg_id w.client.msg_id_counter now).0 in
        let (d, e, q, n, o) =
          send_frame-ready mpsc c w.client.connected w.client.msg_id_counter now t p f
            (s.connected, s.opened.opened, omega (arith, s.opened.room_left)) in
        let sends = send_found_frame c d s.opened.found e in
        let after : InSession (sent_world w now d) tx room
            (generate_msg_id w.client.msg_id_counter now).1
            (frames ++ (build_frame t p f id ∷ [])) =
          record {
            chan = d;
            named = s.named;
            opened = record {
              found = stored mpsc w.channels w.client.command_tx c d s.opened.found;
              opened = o;
              room_left = omega (arith, s.opened.room_left, n);
            };
            connected = s.connected;
            counted = refl;
            queued =
                q
                ∙ ap (λ xs. xs ++ (send (build_frame t p f id) ∷ [])) s.queued
                ∙ map-send_last frames (build_frame t p f id);
          } in
        subst
          (λ n.
            let (i, n') = generate_msg_id n now in
            let out = send_raw_frame mpsc w now t p f in
            (out.0 ≡ ok i) × InSession out.1 tx room n' (frames ++ (build_frame t p f i ∷ [])))
          k
          (subst
            (λ out.
              (out.0 ≡ ok id)
              × InSession out.1 tx room (generate_msg_id w.client.msg_id_counter now).1
                  (frames ++ (build_frame t p f id ∷ [])))
            (sym sends) (refl, after))

  opened-InSession :
      (w : World Chan)
      → InSession (opened mpsc w) (length w.channels) 100 w.client.msg_id_counter []
  opened-InSession w = record {
    chan = mpsc.channel 100;
    named = unfold connect_open in refl;
    opened = record {
      found = opened_channel mpsc w;
      opened = mpsc.is_closed-channel 100;
      room_left = omega (arith, mpsc.capacity-channel 100);
    };
    connected = unfold connect_open in refl;
    counted = unfold connect_open in refl;
    queued = mpsc.queued-channel 100;
  }

  -- `connect` on a client that is not connected begins a session with HELLO.
  pub connect-InSession :
      (w : World Chan) (now : Reading)
      → w.client.connected ≡ false
      → let (id, counter) = generate_msg_id w.client.msg_id_counter now in
        let out = connect mpsc w none now in
        (out.0 ≡ ok tt)
        × InSession out.1
            (length w.channels)
            99
            counter
            (build_frame FrameType.hello w.client.options.client_id no_flags id ∷ [])
        × (out.2 ≡ map Call.connect w.client.callbacks.on_connect)
  connect-InSession w now off =
      let v = opened mpsc w in
      let id = (generate_msg_id w.client.msg_id_counter now).0 in
      let (e, s) =
        send_raw_frame-InSession v now FrameType.hello w.client.options.client_id no_flags
          (length w.channels) 99 w.client.msg_id_counter [] (opened-InSession w) in
      let e' : (send_raw_frame mpsc v now FrameType.hello v.client.options.client_id no_flags).0
          ≡ ok id =
        unfold connect_open in e in
      rw
        (
          connect_parts mpsc w now off,
          hello_ok mpsc v now (length w.channels) id (unfold connect_open in refl) e',
        )
        (
          refl,
          unfold connect_open in
              record {
                chan = s.chan;
                named = s.named;
                opened = record {
                  found = s.opened.found;
                  opened = s.opened.opened;
                  room_left = s.opened.room_left;
                };
                connected = s.connected;
                counted = s.counted;
                queued = s.queued;
              },
          refl,
        )
