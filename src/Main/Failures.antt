-- ===== src/Main/Failures.antt =====
-- Where the example of mip-client-rust/src/main.rs fails.
use mip_clients.Common.{◌≡◌, refl, ap, ◌∙◌, Text, [], ◌∷◌, map, Option, none, some, err, get_elem?}
use std.Path.{subst}
use mip_clients.Client.Types.{MipError, IoErrorKind}
use mip_clients.Client.Events.{Call}
use mip_clients.Client.Sending.{send, Mpsc, Reading}
use mip_clients.Client.Sending.Ids.{generate_all}
use mip_clients.Client.State.{client_new, drop_client, register, push_callback}
use mip_clients.Client.Api.{World, tx_channel}
use mip_clients.Client.Connection.{connect}
use mip_clients.Main.{
  boxed_mip, boxed_io, and_then, example_client, example_options, example_session, example_end,
  example_wait, dropped, example_main,
}
use mip_clients.Main.Session.{session_frames, with_ids, example_session-InSession}

module _ {Chan : Type 0} (mpsc : Mpsc Chan) where
  -- The example's client, dropped before there was a channel.
  abbrev pub never_connected : World Chan
  never_connected = record { client = drop_client example_client; channels = [] }

  refused :
      (e : Text) (ctrl_c : Option IoErrorKind) (waited : World Chan → World Chan)
      (now0 now1 now2 now3 now4 : Reading)
      → example_main mpsc (some e) ctrl_c waited now0 now1 now2 now3 now4
        ≡ some (err (boxed_mip (MipError.connection e)), never_connected, [])
  unfolding example_main example_session example_wait dropped and_then connect example_client
      example_options client_new register push_callback drop_client
  refused e ctrl_c waited now0 now1 now2 now3 now4 = refl

  interrupted :
      (e : IoErrorKind) (now0 now1 now2 now3 now4 : Reading)
      → (w : World Chan) × (d : Chan) × (example_main mpsc none
            (some e)
            (λ v. v)
            now0
            now1
            now2
            now3
            now4
          ≡ some (err (boxed_io e), w, Call.connect 0 ∷ []))
        × (get_elem? w.channels 0 ≡ some d)
        × (mpsc.queued d
            ≡ map send (with_ids session_frames (generate_all 0 (now0 ∷ now1 ∷ now2 ∷ now3 ∷ []))))
  unfolding example_main example_wait example_end dropped generate_all
  interrupted e now0 now1 now2 now3 now4 =
      let (r, s, c) = example_session-InSession mpsc now0 now1 now2 now3 in
      let (out, w, calls) = example_session mpsc none now0 now1 now2 now3 in
      (
        record w { client = drop_client w.client },
        s.chan,
        ap (λ o. dropped mpsc calls (example_wait mpsc o w (λ v. v) (some e) now4)) r
            ∙ ap (λ cs. some (err (boxed_io e), record w { client = drop_client w.client }, cs)) c,
        subst (λ tx. tx_channel w.channels tx ≡ some s.chan) s.named s.opened.found,
        s.queued,
      )

  -- Where the server is not reached, `main` returns the error of `connect`, whatever comes later: no
  -- callback was called and there is no channel. Where the wait for Ctrl+C fails, with nothing else at
  -- work before it, `main` returns that error without CLOSE: the channel holds HELLO, SUBSCRIBE, PUBLISH
  -- and PING only.
  pub example_main-failures :
      (refusal : Text) (e : IoErrorKind) (ctrl_c : Option IoErrorKind)
      (waited : World Chan → World Chan) (now0 now1 now2 now3 now4 : Reading)
      → (example_main mpsc (some refusal) ctrl_c waited now0 now1 now2 now3 now4
          ≡ some (err (boxed_mip (MipError.connection refusal)), never_connected, []))
        × ((w : World Chan) × (d : Chan) × (example_main mpsc none
                (some e)
                (λ v. v)
                now0
                now1
                now2
                now3
                now4
              ≡ some (err (boxed_io e), w, Call.connect 0 ∷ []))
            × (get_elem? w.channels 0 ≡ some d)
            × (mpsc.queued d
                ≡ map send
                    (with_ids session_frames (generate_all 0 (now0 ∷ now1 ∷ now2 ∷ now3 ∷ [])))))
  example_main-failures refusal e ctrl_c waited now0 now1 now2 now3 now4 = (
    refused refusal ctrl_c waited now0 now1 now2 now3 now4,
    interrupted e now0 now1 now2 now3 now4,
  )
