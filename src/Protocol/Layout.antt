-- ===== src/Protocol/Layout.antt =====
-- The bytes that `Header::encode` writes (header.rs), field by field.
use mip_clients.Common.{
  ◌^◌, ◌≡◌, ◌<◌, refl, Bytes, [], ◌∷◌, ◌++◌, length, All, IsByte, to_be_bytes, arith, length-append,
  All-append,
}
use mip_clients.Protocol.{Header, encode, frame_type_code, message_kind_code}

-- What the Rust types of the fields give: array length and integer ranges.
pub record IsTyped (h : Header) : Type 0 where
  pub magic_size : length h.magic ≡ 4
  pub magic_bytes : All IsByte h.magic
  pub version_u8 : h.version < 256
  pub flags_u8 : h.flags.bits < 256
  pub payload_len_u32 : h.payload_len < 256 ^ 4
  pub msg_id_u64 : h.msg_id < 256 ^ 8

-- The layout of the protocol's table: magic, version, flags, type, kind, reserved, length, id.
abbrev pub fields : Header → Bytes
fields h =
    h.version
    ∷ h.flags.bits
    ∷ (to_be_bytes 2 (frame_type_code h.frame_type)
        ++ (to_be_bytes 2 (message_kind_code h.msg_kind)
            ++ (0 ∷ 0 ∷ (to_be_bytes 4 h.payload_len ++ to_be_bytes 8 h.msg_id))))

abbrev pub layout : Header → Bytes
layout h = h.magic ++ fields h

encode_with :
    (m : Bytes) (h : Header)
    → length m ≡ 4
    → encode (record h { magic = m }) ≡ layout (record h { magic = m })
unfolding encode
encode_with [] h n = absurd (omega arith)
encode_with (a ∷ []) h n = absurd (omega arith)
encode_with (a ∷ b ∷ []) h n = absurd (omega arith)
encode_with (a ∷ b ∷ c ∷ []) h n = absurd (omega arith)
encode_with (a ∷ b ∷ c ∷ d ∷ []) h n = refl
encode_with (a ∷ b ∷ c ∷ d ∷ x ∷ m) h n = absurd (omega arith)

-- For a magic of four bytes the encoding is the fields of the protocol's table in its order, each
-- number big-endian in its width, with two zero bytes in the reserved place.
pub encode-layout : (h : Header) → length h.magic ≡ 4 → encode h ≡ layout h
encode-layout h n = encode_with h.magic h n

-- The encoding of a header whose fields are in the ranges of their types has 24 elements, all bytes.
pub encode_size : (h : Header) → IsTyped h → (length (encode h) ≡ 24) × All IsByte (encode h)
encode_size h t = rw (encode-layout h t.magic_size) (
  omega (arith, length-append h.magic (fields h), t.magic_size),
  All-append IsByte h.magic (fields h) t.magic_bytes (omega arith),
)
