-- ===== src/Examples/Systems.antt =====
-- The system at work: reachable states by evaluation, and the theorems there.
use mip_clients.Common.{◌+◌, ◌≤◌, ◌≡◌, refl, List, [], ◌∷◌, false, none, some, get_or, length}
use mip_clients.Protocol.{FrameType, no_flags, encode, header_new}
use mip_clients.Client.Types.{default_options}
use mip_clients.Client.Sending.{Mpsc, send_frame}
use mip_clients.Client.State.{client_new}
use mip_clients.Client.Connection.{disconnect_client}
use mip_clients.Client.Tasks.{spawn_ping_task, ReadResult, wrote_all, wrote_part}
use mip_clients.Client.Tasks.Writes.{bytes_of}
use mip_clients.Client.System.State.{UserPhase, System, Event, new_system}
use mip_clients.Client.System.{step, run, Reach, start, Reach-run}
use mip_clients.Client.System.Recorded.{Recorded, recorded, recording}
use mip_clients.Client.System.Wire.{IsFront, Reach-IsFront}
use mip_clients.Client.System.Sound.{Sound, Reach-Sound}
use mip_clients.Client.System.Calls.{connect_run}
use mip_clients.Client.System.ConnectCall.{Established, connect_run-Answers}
use mip_clients.Client.System.DisconnectCall.{disconnect_run, disconnect_client-run}
use mip_clients.Client.System.Farewells.{Reach-farewells}
use mip_clients.Client.Tasks.Disconnects.{farewells, owed}
use mip_clients.Client.State.{EventKind}
use mip_clients.Examples.Models.{masking, queues, receivers, Queue}

-- A connection whose HELLO has left, then a PING that leaves in part.
abbrev morning : List Event
morning =
    Event.connect
    ∷ Event.dialled none
    ∷ Event.greet (some 1_700)
    ∷ Event.write 0 wrote_all
    ∷ Event.send_raw (some 1_800) FrameType.ping [] no_flags
    ∷ Event.write 0 (wrote_part 5)
    ∷ []

abbrev kept_queues : Mpsc (Recorded Queue)
kept_queues = recorded queues

abbrev after_morning : System (Recorded Queue)
after_morning = run masking kept_queues (recording receivers) (new_system default_options) morning

abbrev first_channel : Recorded Queue
first_channel = get_or after_morning.world.channels 0 (kept_queues.channel 0)

morning-Reach : Reach masking kept_queues (recording receivers) default_options after_morning
morning-Reach = Reach-run masking kept_queues (recording receivers) morning start

-- HELLO's header, and 5 bytes of PING.
after_morning_written : length (after_morning.writers 0).written ≡ 29
unfolding run step client_new send_frame spawn_ping_task encode header_new
after_morning_written = refl

Reach-IsFront_example : IsFront (after_morning.writers 0).written (bytes_of first_channel.history)
unfolding run step client_new send_frame
Reach-IsFront_example = Reach-IsFront receivers masking morning-Reach 0 first_channel refl

-- A `disconnect` begun.
abbrev evening_events : List Event
evening_events =
    Event.connect ∷ Event.dialled none ∷ Event.greet (some 1_700) ∷ Event.disconnect_called ∷ []

abbrev evening : System Queue
evening = run masking queues receivers (new_system default_options) evening_events

evening-Reach : Reach masking queues receivers default_options evening
evening-Reach = Reach-run masking queues receivers evening_events start

Reach-Sound_example : Sound masking queues receivers evening
Reach-Sound_example = Reach-Sound masking queues receivers evening-Reach

abbrev idle : System Queue
idle = new_system default_options

connect_run-Answers_example :
    Established masking receivers idle
      (some 1_700)
      (connect_run masking receivers idle none (some 1_700))
unfolding client_new
connect_run-Answers_example = connect_run-Answers masking receivers idle none (some 1_700) refl

disconnect_client-run_example :
    ((disconnect_run masking receivers idle none).world ≡ record idle.world {
      client = record idle.world.client {
        options = record default_options { auto_reconnect = false };
      };
    })
    × ((disconnect_run masking receivers idle none).user ≡ UserPhase.free)
    × ((disconnect_run masking receivers idle none).calls ≡ [])
unfolding client_new disconnect_client
disconnect_client-run_example = disconnect_client-run masking receivers idle none _ refl refl

-- The peer closes while the client has one disconnect callback.
abbrev cut_events : List Event
cut_events =
    Event.on EventKind.on_disconnect 8
    ∷ Event.connect
    ∷ Event.dialled none
    ∷ Event.read 0 ReadResult.eof
    ∷ Event.read 0 ReadResult.eof
    ∷ Event.read 0 ReadResult.eof
    ∷ Event.read 0 ReadResult.eof
    ∷ []

abbrev cut : System Queue
cut = run masking queues receivers (new_system default_options) cut_events

cut-Reach : Reach masking queues receivers default_options cut
cut-Reach = Reach-run masking queues receivers cut_events start

cut_farewells : farewells cut.calls ≡ 1
unfolding run step client_new
cut_farewells = refl

Reach-farewells_example : farewells cut.calls + owed cut.world.client ≤ 1
unfolding run step client_new
Reach-farewells_example = Reach-farewells masking queues receivers cut-Reach
