-- ===== src/Client/Stream/Messages.antt =====
-- Which messages a stream of frames brings to which callbacks (internals.rs).
use mathlib.Core.List.{flatten}
use mathlib.Core.Path.{ap₂}
use mip_clients.Common.{◌≡◌, refl, ◌∙◌, Bytes, List, [], ◌∷◌, ◌++◌, some, All}
use mip_clients.Protocol.{Bitflags, header_new}
use mip_clients.Client.Types.{MipMessage}
use mip_clients.Client.Events.{Callback, Callbacks, Call}
use mip_clients.Client.Dispatch.{process_frame}
use mip_clients.Client.Dispatch.Fanout.{
  messages, messages-append, messages-process_frame, message_of, copies,
}
use mip_clients.Client.Stream.{read_chunks}
use mip_clients.Client.Stream.Frames.{Frame, IsFrame, wire_stream, received_header, deliveries}
use mip_clients.Client.Stream.Partial.{IsFront, read_chunks-front}

-- For each frame in turn, each callback with the frame's message, if it has one.
abbrev pub messages_of : List Callback → List Frame → List (Callback × MipMessage)
messages_of fs [] = []
messages_of fs (f ∷ later) =
    copies fs (message_of (received_header f) f.payload f.frame_type) ++ messages_of fs later

messages-deliveries :
    (cbs : Callbacks) (fs : List Frame)
    → messages (deliveries cbs fs) ≡ messages_of cbs.on_message fs
unfolding deliveries header_new
messages-deliveries cbs [] = refl
messages-deliveries cbs (f ∷ later) =
    messages-append (process_frame (received_header f) f.payload cbs) (deliveries cbs later)
    ∙ ap₂ (λ xs ys. xs ++ ys) (messages-process_frame (received_header f) f.payload cbs)
        (messages-deliveries cbs later)

-- However the reads cut a stream of frames, followed by the front of one more, into chunks: the message
-- callbacks are called with the messages of the whole frames, those of type Event or Publish whose
-- payload parses, in the order of the frames; each message goes to each callback once, in the order of
-- registration.
pub messages-read_chunks :
    (tail : Bytes) (f : Frame) (missing : Bytes)
    → IsFront tail f missing
    → (bitflags : Bitflags) (cbs : Callbacks) (fs : List Frame) (chunks : List Bytes)
    → All IsFrame fs
    → flatten chunks ≡ wire_stream fs ++ tail
    → (calls : List Call) × (read_chunks bitflags cbs [] chunks ≡ some (tail, calls))
      × (messages calls ≡ messages_of cbs.on_message fs)
messages-read_chunks tail f missing front bitflags cbs fs chunks v e = (
  deliveries cbs fs,
  read_chunks-front tail f missing front bitflags cbs fs chunks v e,
  messages-deliveries cbs fs,
)
