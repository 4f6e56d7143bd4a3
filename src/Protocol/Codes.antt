-- ===== src/Protocol/Codes.antt =====
-- The numeric codes of `FrameType` and `MessageKind` (header.rs, the `TryFrom<u16>` impls).
use mip_clients.Common.{ℕ, ◌≡◌, ◌<◌, ◌↔◌, refl, ok, arith}
use mip_clients.Protocol.{FrameType, MessageKind, frame_type_code, message_kind_code}
use mip_clients.Protocol.{frame_type_try_from, message_kind_try_from}

pub frame_type_try_from-code : (t : FrameType) → frame_type_try_from (frame_type_code t) ≡ ok t
unfolding frame_type_try_from
frame_type_try_from-code FrameType.hello = refl
frame_type_try_from-code _ = refl

pub message_kind_try_from-code :
    (k : MessageKind) → message_kind_try_from (message_kind_code k) ≡ ok k
unfolding message_kind_try_from
message_kind_try_from-code MessageKind.event = refl
message_kind_try_from-code _ = refl

pub code-frame_type_try_from :
    (v : ℕ) (t : FrameType) → frame_type_try_from v ≡ ok t → frame_type_code t ≡ v
unfolding frame_type_try_from
code-frame_type_try_from v t h = ground arith

pub code-message_kind_try_from :
    (v : ℕ) (k : MessageKind) → message_kind_try_from v ≡ ok k → message_kind_code k ≡ v
unfolding message_kind_try_from
code-message_kind_try_from v k h = ground arith

-- A number converts to a frame type exactly when it is that frame type's code.
pub frame_type_try_from_iff :
    (v : ℕ) (t : FrameType) → (frame_type_try_from v ≡ ok t) ↔ (v ≡ frame_type_code t)
frame_type_try_from_iff v t =
    (λ h. cc (code-frame_type_try_from v t h), λ e. rw e (frame_type_try_from-code t))

pub message_kind_try_from_iff :
    (v : ℕ) (k : MessageKind) → (message_kind_try_from v ≡ ok k) ↔ (v ≡ message_kind_code k)
message_kind_try_from_iff v k =
    (λ h. cc (code-message_kind_try_from v k h), λ e. rw e (message_kind_try_from-code k))

pub frame_type_code-lt : (t : FrameType) → frame_type_code t < 11
frame_type_code-lt FrameType.hello = omega arith
frame_type_code-lt _ = omega arith

pub message_kind_code-lt : (k : MessageKind) → message_kind_code k < 6
message_kind_code-lt MessageKind.event = omega arith
message_kind_code-lt _ = omega arith
