-- ===== src/Examples/Sends.antt =====
-- The sending side: runs and instances.
use mip_clients.Common.{
  ℕ, ◌+◌, ◌≡◌, ◌↔◌, refl, Bytes, ascii, List, [], ◌∷◌, ◌++◌, none, some, ok, err, arith, true,
}
use mip_clients.Protocol.{FrameType, no_flags}
use mip_clients.Client.Types.{MipError, default_options}
use mip_clients.Client.Events.{Call}
use mip_clients.Client.Dispatch.Fanout.{messages}
use mip_clients.Client.Stream.{handle_data}
use mip_clients.Client.Sending.{send, generate_msg_id, build_frame, send_frame}
use mip_clients.Client.Sending.Ids.{
  generate_all, generate_all-IsIncreasing, IsIncreasing, generate_msg_id_repeats,
}
use mip_clients.Client.Sending.Queueing.{IsReady, send_frame-ok_iff}
use mip_clients.Client.State.{client_new}
use mip_clients.Client.Api.{World, publish, send_raw_frame}
use mip_clients.Client.Api.Outcomes.{
  CanSend, pending, send_raw_frame-CanSend, send_raw_frame-refused,
}
use mip_clients.Client.Api.EndToEnd.{publish-handle_data, received_message}
use mip_clients.Examples.Models.{masking, queues, Queue, online, listeners, news-IsUtf8, hi-IsUtf8}

online-CanSend : CanSend queues online
unfolding client_new
online-CanSend = (refl, refl, omega arith)

publish-handle_data_example :
    (id : ℕ) × (frame : Bytes) × (calls : List Call) × ((publish queues online
        (some 1_700)
        (ascii "news")
        (ascii "hi")
        no_flags).0
      ≡ ok id)
    × (pending queues (publish queues online (some 1_700) (ascii "news") (ascii "hi") no_flags).1
        ≡ pending queues online ++ (send frame ∷ []))
    × (handle_data masking listeners frame ≡ some ([], calls))
    × (messages calls ≡ (1, received_message (ascii "news") (ascii "hi") no_flags id) ∷ [])
publish-handle_data_example =
    publish-handle_data queues masking listeners online (some 1_700) (ascii "news") (ascii "hi")
      no_flags online-CanSend news-IsUtf8 hi-IsUtf8 (omega arith) (omega arith) (omega arith)

-- A client that never connected.
abbrev offline : World Queue
offline = record { client = client_new default_options; channels = [] }

offline-cannot_send : ¬ CanSend queues offline
unfolding client_new
offline-cannot_send r = absurd r

send_raw_frame-refused_example :
    ((send_raw_frame queues offline none FrameType.ping [] no_flags).0 ≡ err MipError.not_connected)
    × (pending queues (send_raw_frame queues offline none FrameType.ping [] no_flags).1
        ≡ pending queues offline)
send_raw_frame-refused_example =
    send_raw_frame-refused queues offline none FrameType.ping [] no_flags offline-cannot_send

send_raw_frame-CanSend_example :
    ((send_raw_frame queues online (some 1_700) FrameType.ping [] no_flags).0 ≡ ok 1_700)
    × (pending queues (send_raw_frame queues online (some 1_700) FrameType.ping [] no_flags).1
        ≡ send (build_frame FrameType.ping [] no_flags 1_700) ∷ [])
    × ((send_raw_frame queues online (some 1_700) FrameType.ping [] no_flags).1.client
        ≡ record online.client { msg_id_counter = 1 })
unfolding client_new generate_msg_id
send_raw_frame-CanSend_example =
    send_raw_frame-CanSend queues online (some 1_700) FrameType.ping [] no_flags online-CanSend

send_frame-ok_iff_example :
    ((id : ℕ) × ((send_frame queues
          (some (queues.channel 0))
          true
          3
          none
          FrameType.ping
          []
          no_flags).result
        ≡ ok id))
    ↔ IsReady queues (some (queues.channel 0)) true
send_frame-ok_iff_example =
    send_frame-ok_iff queues (some (queues.channel 0)) true 3 none FrameType.ping [] no_flags

generate_all-IsIncreasing_example :
    IsIncreasing (1_000 + 4) (generate_all 4 (some 1_000 ∷ some 1_000 ∷ some 1_005 ∷ []))
generate_all-IsIncreasing_example =
    generate_all-IsIncreasing (some 1_000 ∷ some 1_000 ∷ some 1_005 ∷ []) 4 1_000 2_000
      (omega arith) (omega arith)

generate_msg_id_repeats_example :
    (generate_msg_id (generate_msg_id 0 (some (999 + 1))).1 (some 999)).0
    ≡ (generate_msg_id 0 (some (999 + 1))).0
generate_msg_id_repeats_example = generate_msg_id_repeats 0 999 (omega arith) (omega arith)
