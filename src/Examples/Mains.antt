-- ===== src/Examples/Mains.antt =====
-- The example of mip-client-rust/src/main.rs at concrete readings of the clock.
use mip_clients.Common.{
  ◌≡◌, refl, true, false, List, [], ◌∷◌, ◌++◌, none, some, ok, err, length, replicate, get_elem?,
  ascii, map,
}
use mip_clients.Client.Types.{MipError}
use mip_clients.Client.Events.{Call}
use mip_clients.Client.Sending.{send, Reading}
use mip_clients.Client.Sending.Ids.{generate_all}
use mip_clients.Client.Api.{World}
use mip_clients.Client.Tasks.{Writer, wrote_all}
use mip_clients.Client.Tasks.Writes.{concat, write_run}
use mip_clients.Main.{boxed_mip, boxed_io, example_main}
use mip_clients.Main.Session.{with_ids, session_frames, example_main-write_run}
use mip_clients.Main.Failures.{never_connected, example_main-failures}
use mip_clients.Examples.Models.{queues, receivers, Queue}

abbrev fresh_writer : Writer
fresh_writer = record { written = []; shut = false; active = true }

abbrev readings : List Reading
readings = some 1_700 ∷ some 1_800 ∷ some 1_900 ∷ none ∷ some 2_000 ∷ []

example_main-write_run_example :
    (w : World Queue) × (d : Queue) × (example_main queues none none
        (λ v. v)
        (some 1_700)
        (some 1_800)
        (some 1_900)
        none
        (some 2_000)
      ≡ some (ok tt, w, Call.connect 0 ∷ []))
    × (get_elem? w.channels 0 ≡ some d)
    × ((write_run receivers fresh_writer d
          (replicate (length (queues.queued d)) wrote_all)).0.written
        ≡ [] ++ concat (with_ids session_frames (generate_all 0 readings)))
example_main-write_run_example =
    example_main-write_run queues receivers (some 1_700) (some 1_800) (some 1_900) none (some 2_000)
      fresh_writer refl

example_main-failures_example :
    (example_main queues (some (ascii "refused")) none (λ v. v) none none none none none
      ≡ some (err (boxed_mip (MipError.connection (ascii "refused"))), never_connected queues, []))
    × ((w : World Queue) × (d : Queue) × (example_main queues none
            (some 4)
            (λ v. v)
            none
            none
            none
            none
            none
          ≡ some (err (boxed_io 4), w, Call.connect 0 ∷ []))
        × (get_elem? w.channels 0 ≡ some d)
        × (queues.queued d
            ≡ map send (with_ids session_frames (generate_all 0 (none ∷ none ∷ none ∷ none ∷ [])))))
example_main-failures_example =
    example_main-failures queues (ascii "refused") 4 none (λ v. v) none none none none none
