-- ===== src/Protocol/RoundTrip.antt =====
-- `Header::encode` and `TryFrom<[u8; 24]> for Header` against each other (header.rs).
use mip_clients.Common.{
  ℕ, ◌-◌, ◌^◌, ◌≡◌, ◌<◌, ◌≤◌, ◌∙◌, refl, sym, ap, Bytes, ◌∷◌, ◌++◌, length, All, IsByte, arith,
  to_be_bytes, from_be_bytes, Result, Text, ok, slice, get_or, drop, bit_and,
  from_be_bytes-to_be_bytes, to_be_bytes-from_be_bytes, length-take, length-drop, All-take,
  All-drop, from_be_bytes-lt, get_or-IsByte,
}
use mip_clients.Protocol.{
  Bitflags, Header, FrameFlags, FrameType, MessageKind, header_new, encode, try_from,
  frame_type_code, message_kind_code, declared_bits, msip_magic, msip_version,
}
use mip_clients.Protocol.Codes.{frame_type_code-lt, message_kind_code-lt}
use mip_clients.Protocol.Layout.{layout, encode-layout, IsTyped}
use mip_clients.Protocol.Decode.{
  known, known-declared, header_of, HasMagic, HasVersion, HasType, HasKind, known-lt,
  try_from_accepts,
}
use mip_clients.Protocol.Verdicts.{try_from-Verdict, Verdict-ok}

module _ (bitflags : Bitflags) (t : FrameType) (k : MessageKind) (payload_len msg_id : ℕ) where
  -- A header built by `Header::new` is read back from its encoding, with its undeclared flag bits
  -- unset, if its flags, payload length and message id are in the ranges of their types.
  pub try_from-encode :
      (flags : FrameFlags)
      → flags.bits < 256
      → payload_len < 256 ^ 4
      → msg_id < 256 ^ 8
      → try_from bitflags (encode (header_new t k payload_len msg_id flags))
        ≡ ok (header_new t k payload_len msg_id (known flags.bits))
  unfolding encode header_new
  try_from-encode flags f8 len32 id64 = rw (
    try_from_accepts bitflags (encode (header_new t k payload_len msg_id flags)) f8 t k refl refl
        (from_be_bytes-to_be_bytes 2 (frame_type_code t) (omega (arith, frame_type_code-lt t)))
        (from_be_bytes-to_be_bytes 2 (message_kind_code k) (omega (arith, message_kind_code-lt k))),
    from_be_bytes-to_be_bytes 4 payload_len len32,
    from_be_bytes-to_be_bytes 8 msg_id id64,
  )

  -- So a header with declared flags only is read back unchanged.
  pub try_from-encode_declared :
      (flags : FrameFlags)
      → flags.bits < 8
      → payload_len < 256 ^ 4
      → msg_id < 256 ^ 8
      → try_from bitflags (encode (header_new t k payload_len msg_id flags))
        ≡ ok (header_new t k payload_len msg_id flags)
  try_from-encode_declared flags f8 len32 id64 =
      try_from-encode flags (omega arith) len32 id64
      ∙ ap {B = Result Text Header}
          (λ b. ok (header_new t k payload_len msg_id (record { bits = b })))
          (known-declared flags.bits f8)

-- The buffer with the undeclared bits of its flags byte unset and its reserved bytes zeroed.
abbrev pub canonical : Bytes → Bytes
canonical buf =
    slice buf 0 4
    ++ (get_or buf 4 0
        ∷ bit_and (get_or buf 5 0) declared_bits
        ∷ (slice buf 6 8 ++ (slice buf 8 10 ++ (0 ∷ 0 ∷ (slice buf 12 16 ++ slice buf 16 24)))))

join_eq :
    (f : ℕ) {m m' a a' b b' c c' d d' : Bytes} {v v' : ℕ}
    → m ≡ m'
    → v ≡ v'
    → a ≡ a'
    → b ≡ b'
    → c ≡ c'
    → d ≡ d'
    → m ++ (v ∷ f ∷ (a ++ (b ++ (0 ∷ 0 ∷ (c ++ d)))))
      ≡ m' ++ (v' ∷ f ∷ (a' ++ (b' ++ (0 ∷ 0 ∷ (c' ++ d')))))
join_eq f pm pv pa pb pc pd = cc

module _ (buf : Bytes) (size : length buf ≡ 24) (bytes : All IsByte buf) where
  length-slice : (a b : ℕ) → b ≤ 24 → a ≤ b → length (slice buf a b) ≡ b - a
  length-slice a b hb ha = omega (arith, length-take (b - a) (drop a buf), length-drop a buf)

  slice-IsByte : (a b : ℕ) → All IsByte (slice buf a b)
  slice-IsByte a b = All-take IsByte (b - a) (drop a buf) (All-drop IsByte a buf bytes)

  rewrite_slice :
      (a b : ℕ)
      → b ≤ 24
      → a ≤ b
      → to_be_bytes (b - a) (from_be_bytes (slice buf a b)) ≡ slice buf a b
  rewrite_slice a b hb ha =
      ap (λ (w : ℕ). to_be_bytes w (from_be_bytes (slice buf a b))) (sym (length-slice a b hb ha))
      ∙ to_be_bytes-from_be_bytes (slice buf a b) (slice-IsByte a b)

  slice-lt : (a b : ℕ) → b ≤ 24 → a ≤ b → from_be_bytes (slice buf a b) < 256 ^ (b - a)
  slice-lt a b hb ha =
      rw (length-slice a b hb ha) at (from_be_bytes-lt (slice buf a b) (slice-IsByte a b))

  layout-header_of :
      (t : FrameType) (k : MessageKind)
      → HasMagic buf
      → HasVersion buf
      → HasType buf t
      → HasKind buf k
      → layout (header_of buf t k) ≡ canonical buf
  layout-header_of t k m v ht hk =
      join_eq (bit_and (get_or buf 5 0) declared_bits) (sym m) (sym v)
        (ap (to_be_bytes 2) (sym ht) ∙ rewrite_slice 6 8 (omega arith) (omega arith))
        (ap (to_be_bytes 2) (sym hk) ∙ rewrite_slice 8 10 (omega arith) (omega arith))
        (rewrite_slice 12 16 (omega arith) (omega arith))
        (rewrite_slice 16 24 (omega arith) (omega arith))

  -- On 24 bytes that `try_from` accepts, encoding the header gives the bytes back, but for the
  -- undeclared flag bits and the reserved bytes, which come back zero.
  pub encode-try_from :
      (bitflags : Bitflags) (h : Header) → try_from bitflags buf ≡ ok h → encode h ≡ canonical buf
  encode-try_from bitflags h e =
      let u8 = get_or-IsByte buf 5 bytes in
      let (t, k, m, v, ht, hk, eh) = Verdict-ok h (try_from-Verdict bitflags buf u8) e in
      rw eh (encode-layout (header_of buf t k) refl ∙ layout-header_of t k m v ht hk)

  -- On 24 bytes, the header that `try_from` answers has every field in the range of its type, only
  -- declared flags, and the protocol's magic and version.
  pub try_from-IsTyped :
      (bitflags : Bitflags) (h : Header)
      → try_from bitflags buf ≡ ok h
      → IsTyped h × (h.flags.bits < 8) × (h.magic ≡ msip_magic) × (h.version ≡ msip_version)
  try_from-IsTyped bitflags h e =
      let u8 = get_or-IsByte buf 5 bytes in
      let (t, k, m, v, ht, hk, eh) = Verdict-ok h (try_from-Verdict bitflags buf u8) e in
      let low = known-lt (get_or buf 5 0) u8 in
      rw eh (
        record {
          magic_size = refl;
          magic_bytes = omega arith;
          version_u8 = omega arith;
          flags_u8 = omega arith;
          payload_len_u32 = slice-lt 12 16 (omega arith) (omega arith);
          msg_id_u64 = slice-lt 16 24 (omega arith) (omega arith);
        },
        low,
        refl,
        refl,
      )
