-- ===== src/Main/Session.antt =====
-- What the example of mip-client-rust/src/main.rs sends, from `connect` to `disconnect`.
use mip_clients.Common.{
  ℕ, suc, ◌≡◌, refl, sym, ap, ◌∙◌, true, Bytes, as_bytes, List, [], ◌∷◌, ◌++◌, none, some, ok,
  length, replicate, get_elem?, append_assoc, append-nil, arith,
}
use std.Path.{subst}
use mip_clients.Protocol.{FrameType, FrameFlags, no_flags, ack_required}
use mip_clients.Client.Types.{MipResult}
use mip_clients.Client.Events.{Call}
use mip_clients.Client.Message.{publish_payload}
use mip_clients.Client.Sending.{Mpsc, Receiver, Reading, generate_msg_id, build_frame}
use mip_clients.Client.Sending.Ids.{generate_all}
use mip_clients.Client.State.{client_new, drop_client, register, push_callback}
use mip_clients.Client.Api.{World, tx_channel, send_raw_frame, subscribe, publish, ping}
use mip_clients.Client.Tasks.{Writer, wrote_all}
use mip_clients.Client.Tasks.Writes.{concat, write_run}
use mip_clients.Client.Connection.{close_frame, connect, disconnect_client}
use mip_clients.Client.Connection.Goodbye.{Open, disconnect_client-write_run}
use mip_clients.Client.Connection.Session.{InSession, send_raw_frame-InSession, connect-InSession}
use mip_clients.Main.{
  MainResult, topic, greeting, and_then, example_client, example_options, example_requests,
  example_session, example_end, disconnected, example_wait, dropped, example_main,
}

-- The id that the call after some readings takes, and the counter that it leaves.
abbrev pub next : ℕ → Reading → ℕ
next counter now = (generate_msg_id counter now).1

abbrev pub id_of : ℕ → Reading → ℕ
id_of counter now = (generate_msg_id counter now).0

-- Each request with the id that its call generates.
abbrev pub with_ids : List (ℕ → Bytes) → List ℕ → List Bytes
with_ids (f ∷ fs) (id ∷ ids) = f id ∷ with_ids fs ids
with_ids [] ids = []
with_ids (f ∷ fs) [] = []

abbrev pub session_frames : List (ℕ → Bytes)
session_frames =
    build_frame FrameType.hello (as_bytes []) no_flags
    ∷ build_frame FrameType.subscribe (as_bytes topic) ack_required
    ∷ build_frame FrameType.publish (publish_payload topic greeting) no_flags
    ∷ build_frame FrameType.ping [] no_flags
    ∷ close_frame
    ∷ []

-- What the three requests put behind HELLO, from a counter on.
abbrev pub requested : ℕ → Reading → Reading → Reading → List Bytes
requested counter now1 now2 now3 =
    let n2 = next counter now1 in
    build_frame FrameType.subscribe (as_bytes topic) ack_required (id_of counter now1)
    ∷ build_frame FrameType.publish (publish_payload topic greeting) no_flags (id_of n2 now2)
    ∷ build_frame FrameType.ping [] no_flags (id_of (next n2 now2) now3)
    ∷ []

concat-last : (bs : List Bytes) (b : Bytes) → concat bs ++ b ≡ concat (bs ++ (b ∷ []))
concat-last [] b = sym (append-nil b)
concat-last (a ∷ bs) b = append_assoc a (concat bs) b ∙ ap (λ x. a ++ x) (concat-last bs b)

module _ {Chan : Type 0} (mpsc : Mpsc Chan) where
  and_then-ok {ℓ} :
      {A : Type ℓ} (out : MipResult A × World Chan) (go_on : World Chan → MainResult × World Chan)
      (a : A)
      → out.0 ≡ ok a
      → and_then mpsc out go_on ≡ go_on out.1
  unfolding and_then
  and_then-ok out go_on a e = ap (λ r. and_then mpsc (r, out.1) go_on) e

  -- What holds of all that follows a request in a session holds of the whole.
  and_then-InSession :
      (P : MainResult × World Chan → Type 0) (w : World Chan) (now : Reading) (t : FrameType)
      (p : Bytes) (f : FrameFlags) (go_on : World Chan → MainResult × World Chan)
      (tx room counter : ℕ) (frames : List Bytes)
      → InSession mpsc w tx (suc room) counter frames
      → ((v : World Chan)
          → InSession mpsc v tx room
              (next counter now)
              (frames ++ (build_frame t p f (id_of counter now) ∷ []))
          → P (go_on v))
      → P (and_then mpsc (send_raw_frame mpsc w now t p f) go_on)
  and_then-InSession P w now t p f go_on tx room counter frames s k =
      let (e, s') = send_raw_frame-InSession mpsc w now t p f tx room counter frames s in
      subst P (sym (and_then-ok (send_raw_frame mpsc w now t p f) go_on (id_of counter now) e))
        (k _ s')

  example_requests-InSession :
      (w : World Chan) (now1 now2 now3 : Reading) (tx counter : ℕ) (hello : Bytes)
      → InSession mpsc w tx 99 counter (hello ∷ [])
      → let out = example_requests mpsc w now1 now2 now3 in
        let n2 = next counter now1 in
        let n3 = next n2 now2 in
        (out.0 ≡ ok tt)
        × InSession mpsc out.1 tx 96 (next n3 now3) (hello ∷ requested counter now1 now2 now3)
  unfolding example_requests subscribe publish ping
  example_requests-InSession w now1 now2 now3 tx counter hello s =
      let n2 = next counter now1 in
      let n3 = next n2 now2 in
      let Ends : List Bytes → MainResult × World Chan → Type 0 =
        λ frames out. (out.0 ≡ ok tt) × InSession mpsc out.1 tx 96 (next n3 now3) frames in
      and_then-InSession (Ends _) w now1 FrameType.subscribe (as_bytes topic) ack_required _ tx 98
        counter (hello ∷ []) s
        (λ w1 s1.
          and_then-InSession (Ends _) w1 now2 FrameType.publish (publish_payload topic greeting)
            no_flags _ tx 97 n2 _ s1
            (λ w2 s2.
              and_then-InSession (Ends _) w2 now3 FrameType.ping [] no_flags _ tx 96 n3 _ s2
                (λ w3 s3. (refl, s3))))

  -- The session of the example, up to the wait for Ctrl+C.
  pub example_session-InSession :
      (now0 now1 now2 now3 : Reading)
      → let out = example_session mpsc none now0 now1 now2 now3 in
        let n1 = next 0 now0 in
        let n2 = next n1 now1 in
        let n3 = next n2 now2 in
        (out.0 ≡ ok tt)
        × InSession mpsc out.1 0 96 (next n3 now3) (
            build_frame FrameType.hello (as_bytes []) no_flags (id_of 0 now0)
            ∷ requested n1 now1 now2 now3)
        × (out.2 ≡ Call.connect 0 ∷ [])
  unfolding example_session example_client example_options register client_new push_callback
  example_session-InSession now0 now1 now2 now3 =
      let begin : World Chan = record { client = example_client; channels = [] } in
      let (e, s, c) = connect-InSession mpsc begin now0 refl in
      let (out, w, calls) = connect mpsc begin none now0 in
      let n1 = next 0 now0 in
      let (e', s') = example_requests-InSession w now1 now2 now3 0 n1 _ s in
      let chained = and_then-ok (out, w) (λ v. example_requests mpsc v now1 now2 now3) tt e in
      let frames =
        build_frame FrameType.hello (as_bytes []) no_flags (id_of 0 now0)
        ∷ requested n1 now1 now2 now3 in
      let n3 = next (next n1 now1) now2 in
      (
        ap (λ o. o.0) chained ∙ e',
        subst (λ o. InSession mpsc o.1 0 96 (next n3 now3) frames) (sym chained) s',
        c,
      )

  example_end-none :
      (w w' : World Chan) (now : Reading)
      → disconnect_client mpsc w now ≡ some w'
      → example_end mpsc w none now ≡ some (ok tt, w')
  unfolding example_end disconnected
  example_end-none w w' now e = ap (disconnected mpsc) e

  abbrev left : World Chan → World Chan
  left w = record w { client = drop_client w.client }

  example_main-ok :
      (now0 now1 now2 now3 now4 : Reading) (w w' : World Chan) (calls : List Call)
      → example_session mpsc none now0 now1 now2 now3 ≡ (ok tt, w, calls)
      → disconnect_client mpsc w now4 ≡ some w'
      → example_main mpsc none none (λ v. v) now0 now1 now2 now3 now4 ≡ some (ok tt, left w', calls)
  unfolding example_main example_wait dropped
  example_main-ok now0 now1 now2 now3 now4 w w' calls e f =
      ap (λ (r, v, cs). dropped mpsc cs (example_wait mpsc r v (λ u. u) none now4)) e
      ∙ ap (dropped mpsc calls) (example_end-none w w' now4 f)

module _ {Chan : Type 0} (mpsc : Mpsc Chan) (receiver : Receiver mpsc) where
  -- Where the server is reached and Ctrl+C arrives with nothing else at work before it, `main` returns
  -- without an error, whatever the clock reads; its first callback was called once, and a write task
  -- that runs on with writes that succeed has then written, behind what it had, HELLO, SUBSCRIBE,
  -- PUBLISH, PING and CLOSE, each with the id that its reading of the clock gives.
  pub example_main-write_run :
      (now0 now1 now2 now3 now4 : Reading) (t : Writer)
      → t.active ≡ true
      → (w : World Chan) × (d : Chan) × (example_main mpsc none none
            (λ v. v)
            now0
            now1
            now2
            now3
            now4
          ≡ some (ok tt, w, Call.connect 0 ∷ []))
        × (get_elem? w.channels 0 ≡ some d)
        × ((write_run receiver t d (replicate (length (mpsc.queued d)) wrote_all)).0.written
            ≡ t.written
              ++ concat (
                  with_ids session_frames (generate_all 0 (now0 ∷ now1 ∷ now2 ∷ now3 ∷ now4 ∷ []))))
  unfolding generate_all
  example_main-write_run now0 now1 now2 now3 now4 t a =
      let (e, s, c) = example_session-InSession mpsc now0 now1 now2 now3 in
      let (out, w, calls) = example_session mpsc none now0 now1 now2 now3 in
      let n1 = next 0 now0 in
      let n4 = next (next (next n1 now1) now2) now3 in
      let frames =
        build_frame FrameType.hello (as_bytes []) no_flags (id_of 0 now0)
        ∷ requested n1 now1 now2 now3 in
      let open_two : Open mpsc w 2 s.chan = record {
        found = s.opened.found;
        opened = s.opened.opened;
        room_left = omega (arith, s.opened.room_left);
      } in
      let (w', d, f, kept, wrote) =
        disconnect_client-write_run mpsc receiver w now4 s.chan frames t open_two s.connected
          s.queued a in
      let last = concat-last frames (close_frame (id_of n4 now4)) in
      let ended : example_session mpsc none now0 now1 now2 now3 ≡ (ok tt, w, Call.connect 0 ∷ []) =
        ap (λ r. (r, w, calls)) e ∙ ap (λ cs. (ok tt, w, cs)) c in
      (
        left mpsc w',
        d,
        example_main-ok mpsc now0 now1 now2 now3 now4 w w' _ ended f,
        subst (λ tx. tx_channel w'.channels tx ≡ some d) s.named kept,
        wrote
            ∙ ap (λ n. t.written ++ (concat frames ++ close_frame (id_of n now4))) s.counted
            ∙ ap (λ x. t.written ++ x) last,
      )
