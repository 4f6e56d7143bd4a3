-- ===== src/Examples/Connections.antt =====
-- Connecting, disconnecting and the tasks: the theorems at concrete inputs.
use mip_clients.Common.{
  ◌==◌, map, ◌+◌, ◌≡◌, refl, ascii, List, [], ◌∷◌, none, some, ok, arith, length, replicate, true,
  false,
}
use mip_clients.Client.Types.{default_options}
use mip_clients.Client.Events.{default_callbacks}
use mip_clients.Client.Sending.{ClientCommand, send, disconnect, generate_msg_id}
use mip_clients.Client.State.{MipClient, client_new}
use mip_clients.Client.Api.{World, tx_channel}
use mip_clients.Client.Api.Outcomes.{CanSend}
use mip_clients.Client.Tasks.{ReadPhase, ReadResult, Writer, wrote_all, write_step}
use mip_clients.Client.Tasks.Disconnects.{
  wind_up, wind_up-ended, read_run, farewells_to, owed_to, farewells_to-read_run,
}
use mip_clients.Client.Tasks.Writes.{write_run, write_run-bytes_of, write_step-ends}
use mip_clients.Client.Connection.{
  close_frame, connect, disconnect_client, disconnect_end, disconnect_begin,
}
use mip_clients.Client.Connection.Laws.{Connected, connect-Connected}
use mip_clients.Client.Connection.Disconnect.{IsDisconnected, disconnect_client-IsDisconnected}
use mip_clients.Client.Connection.Goodbye.{
  Open, Goodbye, disconnect_client-Goodbye, disconnect_client-write_run,
}
use mip_clients.Client.Sending.Ids.{generate_all}
use mip_clients.Client.Tasks.{ticking, stopped}
use mip_clients.Client.Tasks.Visits.{Visit, ping_visits, ping_visits-pings_of}
use mip_clients.Client.Tasks.Pings.{ping_command, ping_run, ping_run-generate_all}
use mip_clients.Client.Tasks.Reconnects.{wind_up-first}
use mip_clients.Client.Events.{Call}
use mip_clients.Examples.Models.{masking, queues, receivers, Queue, online}

-- A client that has two disconnect callbacks.
abbrev leaving : MipClient
unfolding client_new
leaving = record online.client {
  callbacks = record default_callbacks { on_disconnect = 4 ∷ 5 ∷ [] };
}

wind_up-ended_example :
    ((wind_up masking leaving).0 ≡ ReadPhase.ended)
    × ((wind_up masking leaving).1.connected ≡ false)
wind_up-ended_example = wind_up-ended masking leaving

-- The peer closes at the second read.
abbrev visit : List ReadResult
visit =
    ReadResult.eof
    ∷ ReadResult.got (ascii "MS")
    ∷ ReadResult.eof
    ∷ ReadResult.eof
    ∷ ReadResult.eof
    ∷ []

-- Of its two disconnect callbacks, the one with the number 5.
farewells_to-read_run_example :
    farewells_to (λ f. f == 5) (read_run masking leaving (ReadPhase.checking []) visit).2
      + owed_to (λ f. f == 5) (read_run masking leaving (ReadPhase.checking []) visit).1
    ≡ 1
unfolding client_new
farewells_to-read_run_example =
    farewells_to-read_run masking (λ f. f == 5) leaving (ReadPhase.checking []) visit

abbrev fresh : Writer
fresh = record { written = []; shut = false; active = true }

-- Two frames, the end, and a frame behind it.
abbrev orders : List ClientCommand
orders = send (1 ∷ 2 ∷ []) ∷ send (3 ∷ []) ∷ disconnect ∷ send (4 ∷ []) ∷ []

abbrev full : Queue
full = record { items = orders; room = 96; closed = false }

-- The end, and a frame behind it.
abbrev farewell : Queue
farewell = record { items = disconnect ∷ send (4 ∷ []) ∷ []; room = 98; closed = false }

write_run-bytes_of_example :
    (write_run receivers fresh full (replicate 4 wrote_all)).0.written ≡ 1 ∷ 2 ∷ 3 ∷ []
write_run-bytes_of_example = write_run-bytes_of receivers orders fresh full refl refl

write_step-ends_example :
    let (t', d) = write_step receivers fresh farewell wrote_all in
    (t'.active ≡ false) × (t'.written ≡ []) × ((y : ClientCommand) → queues.try_send d y ≡ none)
write_step-ends_example =
    write_step-ends receivers fresh farewell disconnect (send (4 ∷ []) ∷ []) wrote_all refl refl

abbrev offline : World Queue
offline = record { client = client_new default_options; channels = [] }

connect-Connected_example :
    ((connect queues offline none (some 1_700)).0 ≡ ok tt)
    × Connected queues offline
        (connect queues offline none (some 1_700)).1
        (some 1_700)
        (generate_msg_id 0 (some 1_700)).0
    × ((connect queues offline none (some 1_700)).2 ≡ [])
unfolding client_new
connect-Connected_example = connect-Connected queues offline (some 1_700) refl

-- The client of `online`, whose channel is empty and has 100 places.
online-Open : Open queues online 2 (queues.channel 100)
unfolding client_new
online-Open = record { found = refl; opened = refl; room_left = omega arith }

disconnect_client-Goodbye_example :
    (w' : World Queue) × (d : Queue) × Goodbye queues online w' (some 1_700) (queues.channel 100) d
unfolding client_new
disconnect_client-Goodbye_example =
    disconnect_client-Goodbye queues online (some 1_700) (queues.channel 100) online-Open refl

-- A channel in which a frame waits.
abbrev waiting : Queue
waiting = record { items = send (7 ∷ []) ∷ []; room = 2; closed = false }

abbrev waiting_world : World Queue
waiting_world = record online { channels = waiting ∷ [] }

waiting-Open : Open queues waiting_world 2 waiting
unfolding client_new
waiting-Open = record { found = refl; opened = refl; room_left = omega arith }

disconnect_client-write_run_example :
    (w' : World Queue) × (d : Queue) × (disconnect_client queues waiting_world (some 1_700)
      ≡ some w')
    × (tx_channel w'.channels (some 0) ≡ some d)
    × ((write_run receivers fresh d (replicate (length d.items) wrote_all)).0.written
        ≡ 7 ∷ close_frame (generate_msg_id 0 (some 1_700)).0)
unfolding client_new
disconnect_client-write_run_example =
    disconnect_client-write_run queues receivers waiting_world (some 1_700) waiting ((7 ∷ []) ∷ [])
      fresh waiting-Open refl refl refl

disconnect_client-IsDisconnected_example :
    IsDisconnected queues
      (record offline { client = disconnect_end queues (disconnect_begin queues offline.client) })
    × (¬ CanSend queues (record offline {
      client = disconnect_end queues (disconnect_begin queues offline.client);
    }))
unfolding client_new disconnect_client
disconnect_client-IsDisconnected_example =
    disconnect_client-IsDisconnected queues offline
      (record offline { client = disconnect_end queues (disconnect_begin queues offline.client) })
      none refl

ping_run-generate_all_example :
    let out = ping_run queues (ticking, online.client, waiting) (some 1_700 ∷ some 1_800 ∷ []) in
    (out.0 ≡ ticking)
    × (out.2.items
        ≡ send (7 ∷ []) ∷ map ping_command (generate_all 0 (some 1_700 ∷ some 1_800 ∷ [])))
unfolding client_new
ping_run-generate_all_example =
    ping_run-generate_all queues (some 1_700 ∷ some 1_800 ∷ []) online.client waiting refl refl refl
      (omega arith)

abbrev roomy : Queue
roomy = record waiting { room = 9 }

-- Connected, then not, then connected again.
ping_visits-pings_of_example :
    let visits : List Visit =
      (online.client, some 1_700)
      ∷ (offline.client, some 1_800)
      ∷ (online.client, some 1_900)
      ∷ [] in
    let (phase, d) = ping_visits queues ticking roomy visits in
    (phase ≡ stopped) × (d.items ≡ send (7 ∷ []) ∷ ping_command 1_700 ∷ [])
unfolding client_new generate_msg_id
ping_visits-pings_of_example =
    ping_visits-pings_of queues
      ((online.client, some 1_700)
        ∷ (offline.client, some 1_800)
        ∷ (online.client, some 1_900)
        ∷ [])
      roomy refl (omega arith)

-- A client with a reconnect callback, and a limit of one attempt.
abbrev returning : MipClient
unfolding client_new
returning = record online.client {
  options = record default_options { max_reconnect_attempts = 1 };
  callbacks = record default_callbacks { on_disconnect = 4 ∷ []; on_reconnecting = 6 ∷ [] };
}

wind_up-first_example :
    (wind_up masking returning).2 ≡ Call.disconnect 4 ∷ Call.reconnecting 1 6 ∷ []
unfolding client_new
wind_up-first_example = wind_up-first masking returning refl
