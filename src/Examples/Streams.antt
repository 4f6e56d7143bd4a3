-- ===== src/Examples/Streams.antt =====
-- The reading side: runs and instances.
use mathlib.Core.List.{flatten}
use mip_clients.Common.{
  ◌≡◌, refl, Bytes, ascii, List, [], ◌∷◌, ◌++◌, some, take, drop, slice, arith,
}
use mip_clients.Utf8.{from_utf8_lossy}
use mip_clients.Protocol.{
  FrameType, MessageKind, no_flags, header_new, encode, try_from, frame_type_try_from,
  message_kind_try_from,
}
use mip_clients.Client.Types.{MipError}
use mip_clients.Client.Events.{Call, emit_error}
use mip_clients.Client.Message.{parse_message, publish_payload}
use mip_clients.Client.Message.RoundTrip.{parse_message-publish_payload, parse_message-publish}
use mip_clients.Client.Dispatch.{process_frame}
use mip_clients.Client.Dispatch.Fanout.{process_frame-tell, tell_all, notices, messages}
use mip_clients.Client.Stream.{data_round, data_loop, handle_data, read_chunks}
use mip_clients.Client.Stream.Runs.{handle_data_total}
use mip_clients.Client.Stream.Chunks.{read_chunks-Runs}
use mip_clients.Client.Stream.Frames.{
  Frame, IsFrame, wire, wire_stream, deliveries, received_header, sent_header, wire_stream-Runs,
  Waits-nil,
}
use mip_clients.Client.Stream.Partial.{IsFront, read_chunks-front}
use mip_clients.Client.Stream.Faults.{foreign_wire, handle_data-foreign}
use mip_clients.Client.Stream.Resumes.{read_chunks-junk}
use mip_clients.Client.Stream.Messages.{messages-read_chunks}
use mip_clients.Examples.Models.{masking, listeners, news-IsUtf8, hi-IsUtf8}

-- An invalid byte, and a character that is cut, are each replaced.
lossy_run :
    from_utf8_lossy (0x61 ∷ 0xFF ∷ 0xE2 ∷ 0x82 ∷ 0x62 ∷ [])
    ≡ 0x61 ∷ 0xEF ∷ 0xBF ∷ 0xBD ∷ 0xEF ∷ 0xBF ∷ 0xBD ∷ 0x62 ∷ []
unfolding from_utf8_lossy
lossy_run = refl

abbrev pong : Frame
pong = record {
  frame_type = FrameType.pong;
  msg_kind = MessageKind.event;
  msg_id = 5;
  flags = no_flags;
  payload = [];
}

abbrev news : Frame
news = record {
  frame_type = FrameType.publish;
  msg_kind = MessageKind.event;
  msg_id = 6;
  flags = no_flags;
  payload = 0 ∷ 4 ∷ (ascii "news" ++ ascii "hi");
}

-- A frame whose payload is a frame.
abbrev parcel : Frame
parcel = record {
  frame_type = FrameType.ping;
  msg_kind = MessageKind.event;
  msg_id = 7;
  flags = no_flags;
  payload = wire pong;
}

news_delivered :
    handle_data masking listeners (wire news)
    ≡ some (
      [],
      Call.message
            (record { header = received_header news; topic = ascii "news"; message = ascii "hi" })
            1
          ∷ [],
    )
unfolding handle_data data_loop data_round process_frame parse_message publish_payload
    from_utf8_lossy encode header_new try_from frame_type_try_from message_kind_try_from
news_delivered = refl

pong-IsFrame : IsFrame pong
pong-IsFrame = omega arith

news-IsFrame : IsFrame news
unfolding publish_payload
news-IsFrame = omega arith

parcel-IsFrame : IsFrame parcel
unfolding encode header_new
parcel-IsFrame = omega arith

-- The two frames, and the first 30 bytes of a third, in reads of 10 and 50 bytes and the rest.
abbrev both : Bytes
both = wire_stream (pong ∷ news ∷ []) ++ take 30 (wire news)

abbrev reads : List Bytes
reads = slice both 0 10 ∷ slice both 10 60 ∷ drop 60 both ∷ []

news-IsFront : IsFront (take 30 (wire news)) news (drop 30 (wire news))
unfolding encode header_new publish_payload
news-IsFront = record { whole = refl; cut = omega arith; frame = news-IsFrame }

reads_whole : flatten reads ≡ both
unfolding flatten wire_stream encode header_new publish_payload
reads_whole = refl

read_chunks-front_example :
    read_chunks masking listeners [] reads
    ≡ some (take 30 (wire news), deliveries listeners (pong ∷ news ∷ []))
read_chunks-front_example =
    read_chunks-front (take 30 (wire news)) news (drop 30 (wire news)) news-IsFront masking
      listeners (pong ∷ news ∷ []) reads (pong-IsFrame, (news-IsFrame, tt)) reads_whole

read_chunks-Runs_example :
    read_chunks masking listeners [] (wire_stream (pong ∷ []) ∷ [] ∷ [])
    ≡ some ([], deliveries listeners (pong ∷ []))
unfolding flatten
read_chunks-Runs_example =
    read_chunks-Runs masking listeners [] (wire_stream (pong ∷ []) ∷ [] ∷ [])
      (deliveries listeners (pong ∷ [])) [] (Waits-nil masking listeners)
      (wire_stream-Runs masking listeners (pong ∷ []) [] (pong-IsFrame, tt)
        (Waits-nil masking listeners))

handle_data_total_example :
    (out : Bytes × List Call) × (handle_data masking listeners (ascii "no frame at all, but text")
      ≡ some out)
handle_data_total_example = handle_data_total masking listeners (ascii "no frame at all, but text")

abbrev text : Bytes
text = ascii "no frame at all, but text" ++ wire pong

-- A frame and a text in one read, and then the two frames and the front of a third.
read_chunks-junk_example :
    read_chunks masking listeners [] ((wire_stream (news ∷ []) ++ text) ∷ reads)
    ≡ some (
      take 30 (wire news),
      (deliveries listeners (news ∷ []) ++ emit_error listeners (MipError.invalid_magic 0x6E6F2066))
          ++ deliveries listeners (pong ∷ news ∷ []),
    )
read_chunks-junk_example =
    read_chunks-junk masking listeners text (omega arith) (λ e. cc (e)) (take 30 (wire news)) news
      (drop 30 (wire news)) news-IsFront (news ∷ []) (pong ∷ news ∷ []) reads (news-IsFrame, tt)
      (pong-IsFrame, (news-IsFrame, tt)) reads_whole

messages-read_chunks_example :
    (calls : List Call) × (read_chunks masking listeners [] reads
      ≡ some (take 30 (wire news), calls))
    × (messages calls
        ≡ (1, record { header = received_header news; topic = ascii "news"; message = ascii "hi" })
          ∷ [])
unfolding parse_message from_utf8_lossy header_new
messages-read_chunks_example =
    messages-read_chunks (take 30 (wire news)) news (drop 30 (wire news)) news-IsFront masking
      listeners (pong ∷ news ∷ []) reads (pong-IsFrame, (news-IsFrame, tt)) reads_whole

handle_data-foreign_example :
    handle_data masking listeners (foreign_wire 2 parcel)
    ≡ some (
      [],
      emit_error listeners (MipError.protocol (ascii "unsupported version"))
          ++ process_frame (received_header pong) [] listeners,
    )
handle_data-foreign_example =
    handle_data-foreign masking listeners 2 parcel pong (omega arith) parcel-IsFrame pong-IsFrame
      refl

process_frame-tell_example :
    process_frame (received_header news) news.payload listeners
    ≡ tell_all listeners (notices (received_header news) news.payload FrameType.publish)
unfolding header_new
process_frame-tell_example = process_frame-tell (received_header news) news.payload listeners

parse_message-publish_payload_example :
    parse_message (sent_header news) (publish_payload (ascii "news") (ascii "hi"))
    ≡ some (record {
      header = sent_header news;
      topic = from_utf8_lossy (ascii "news");
      message = from_utf8_lossy (ascii "hi");
    })
parse_message-publish_payload_example =
    parse_message-publish_payload (sent_header news) (ascii "news") (ascii "hi")

parse_message-publish_example :
    parse_message (sent_header news) (publish_payload (ascii "news") (ascii "hi"))
    ≡ some (record { header = sent_header news; topic = ascii "news"; message = ascii "hi" })
parse_message-publish_example =
    parse_message-publish (sent_header news) (ascii "news") (ascii "hi") news-IsUtf8 hi-IsUtf8
      (omega arith)
