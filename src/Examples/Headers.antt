-- ===== src/Examples/Headers.antt =====
-- Headers: runs and instances.
use mip_clients.Common.{◌≡◌, ◌≢◌, ◌<◌, refl, Bytes, ascii, [], ◌∷◌, ok, err, arith, set}
use mip_clients.Protocol.{
  Header, FrameType, MessageKind, ack_required, header_new, encode, try_from, msip_magic,
  msip_version, frame_type_try_from, message_kind_try_from,
}
use mip_clients.Protocol.Decode.{known}
use mip_clients.Protocol.Layout.{layout, encode-layout, IsTyped}
use mip_clients.Protocol.Verdicts.{Verdict, try_from-Verdict, try_from-ne-invalid_flags}
use mip_clients.Protocol.RoundTrip.{try_from-encode, encode-try_from, canonical, try_from-IsTyped}
use mip_clients.Examples.Models.{masking}

abbrev ping_header : Header
unfolding header_new
ping_header = header_new FrameType.ping MessageKind.event 0 0x0102 ack_required

-- The ping's bytes, with a reserved byte and two undeclared flag bits set.
abbrev ping_bytes : Bytes
ping_bytes =
    77 ∷ 83 ∷ 73 ∷ 80 ∷ 1 ∷ 0xC1 ∷ 0 ∷ 8 ∷ 0 ∷ 1 ∷ 9 ∷ 0 ∷ 0 ∷ 0 ∷ 0 ∷ 0 ∷ 0 ∷ 0 ∷ 0 ∷ 0 ∷ 0 ∷ 0 ∷ 1
    ∷ 2 ∷ []

ping_encodes : encode ping_header ≡ canonical ping_bytes
unfolding encode header_new
ping_encodes = refl

ping_decodes : try_from masking ping_bytes ≡ ok ping_header
unfolding try_from header_new frame_type_try_from message_kind_try_from
ping_decodes = refl

version_2 : try_from masking (set ping_bytes 4 2) ≡ err (ascii "unsupported version")
unfolding try_from
version_2 = refl

encode-layout_example : encode ping_header ≡ layout ping_header
unfolding header_new
encode-layout_example = encode-layout ping_header refl

try_from-encode_example :
    try_from masking
      (encode (header_new FrameType.ack MessageKind.log 7 9 (record { bits = 0xC1 })))
    ≡ ok (header_new FrameType.ack MessageKind.log 7 9 (known 0xC1))
try_from-encode_example =
    try_from-encode masking FrameType.ack MessageKind.log 7 9 (record { bits = 0xC1 }) (omega arith)
      (omega arith) (omega arith)

encode-try_from_example : encode ping_header ≡ canonical ping_bytes
unfolding header_new
encode-try_from_example =
    encode-try_from ping_bytes refl (omega arith) masking ping_header ping_decodes

try_from-IsTyped_example :
    IsTyped ping_header
    × (ping_header.flags.bits < 8)
    × (ping_header.magic ≡ msip_magic)
    × (ping_header.version ≡ msip_version)
try_from-IsTyped_example =
    try_from-IsTyped ping_bytes refl (omega arith) masking ping_header ping_decodes

try_from-Verdict_example : Verdict ping_bytes (try_from masking ping_bytes)
try_from-Verdict_example = try_from-Verdict masking ping_bytes (omega arith)

try_from-ne-invalid_flags_example : try_from masking ping_bytes ≢ err (ascii "invalid flags")
try_from-ne-invalid_flags_example = try_from-ne-invalid_flags masking ping_bytes (omega arith)
