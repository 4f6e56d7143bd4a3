-- ===== src/Protocol/Decode.antt =====
-- `TryFrom<[u8; 24]> for Header` on any buffer: what is accepted, and what each refusal says
-- (header.rs).
use mip_clients.Common.{
  ℕ, ◌-◌, ◌/◌, ◌≡◌, ◌≢◌, ◌<◌, refl, ap, true, Bool-cases, inl, inr, false, Bytes, arith, ascii,
  bit_and, ◌==◌, bytes_eq, bytes_eq→eq, bytes_eq_refl, slice, get_or, from_be_bytes, Result, ok,
  err, agree_below, agree_below→eq,
}
use mip_clients.Protocol.{
  Bitflags, Header, FrameFlags, FrameType, MessageKind, try_from, declared_bits, frame_type_code,
  message_kind_code, frame_type_try_from, message_kind_try_from, msip_magic,
}
use mip_clients.Protocol.Codes.{frame_type_try_from_iff, message_kind_try_from_iff}

-- The flags that the crate keeps: those with a declared bit.
abbrev pub known : ℕ → FrameFlags
known b = record { bits = bit_and b declared_bits }

-- No bit is declared and undeclared.
masked_out : (b : ℕ) → b < 256 → bit_and (bit_and b declared_bits) (255 - declared_bits) ≡ 0
unfolding agree_below
masked_out b h =
    agree_below→eq (λ x. bit_and (bit_and x declared_bits) (255 - declared_bits)) (λ x. 0) 256 b
      refl h

pub known-declared : (b : ℕ) → b < 8 → bit_and b declared_bits ≡ b
unfolding agree_below
known-declared b h = agree_below→eq (λ x. bit_and x declared_bits) (λ x. x) 8 b refl h

pub known-lt : (b : ℕ) → b < 256 → bit_and b declared_bits < 8
unfolding agree_below
known-lt b h =
    let table = agree_below→eq (λ x. bit_and x declared_bits / 8) (λ x. 0) 256 b refl h in
    omega arith

-- What a buffer must hold to be a header, in the order in which it is checked.
abbrev pub HasMagic : Bytes → Type 0
HasMagic buf = slice buf 0 4 ≡ msip_magic

abbrev pub HasVersion : Bytes → Type 0
HasVersion buf = get_or buf 4 0 ≡ 1

abbrev pub HasType : Bytes → FrameType → Type 0
HasType buf t = from_be_bytes (slice buf 6 8) ≡ frame_type_code t

abbrev pub HasKind : Bytes → MessageKind → Type 0
HasKind buf k = from_be_bytes (slice buf 8 10) ≡ message_kind_code k

-- The header that a buffer with this type and kind stands for.
abbrev pub header_of : Bytes → FrameType → MessageKind → Header
header_of buf t k = record {
  magic = msip_magic;
  version = 1;
  flags = known (get_or buf 5 0);
  frame_type = t;
  msg_kind = k;
  payload_len = from_be_bytes (slice buf 12 16);
  msg_id = from_be_bytes (slice buf 16 24);
}

pub bytes_eq-false : (xs ys : Bytes) → xs ≢ ys → bytes_eq xs ys ≡ false
bytes_eq-false xs ys h = elim (Bool-cases (bytes_eq xs ys)) [
  | inl e ↦ absurd (h (bytes_eq→eq xs ys e))
  | inr e ↦ e
]

eq→bytes_eq : (xs ys : Bytes) → xs ≡ ys → bytes_eq xs ys ≡ true
eq→bytes_eq xs ys e = rw e (bytes_eq_refl ys)

==-false : (a b : ℕ) → a ≢ b → (a == b) ≡ false
==-false a b h = ground arith

frame_type_refused :
    (v : ℕ) → ((t : FrameType) → v ≢ frame_type_code t) → frame_type_try_from v ≡ err tt
frame_type_refused v h = go (frame_type_try_from v) refl
  where
    go : (r : Result Unit FrameType) → frame_type_try_from v ≡ r → frame_type_try_from v ≡ err tt
    go (ok t) e = absurd (h t ((frame_type_try_from_iff v t).0 e))
    go (err tt) e = e

message_kind_refused :
    (v : ℕ) → ((k : MessageKind) → v ≢ message_kind_code k) → message_kind_try_from v ≡ err tt
message_kind_refused v h = go (message_kind_try_from v) refl
  where
    go :
        (r : Result Unit MessageKind)
        → message_kind_try_from v ≡ r
        → message_kind_try_from v ≡ err tt
    go (ok k) e = absurd (h k ((message_kind_try_from_iff v k).0 e))
    go (err tt) e = e

module _ (bitflags : Bitflags) where
  pub from_bits_truncate-known : (b : ℕ) → b < 256 → bitflags.from_bits_truncate b ≡ known b
  from_bits_truncate-known b h =
      ap {B = FrameFlags} (λ v. record { bits = v }) (bitflags.bits-from_bits_truncate b h)

  module _ (buf : Bytes) (flags_u8 : get_or buf 5 0 < 256) where
    flags_pass :
        (bit_and (bitflags.from_bits_truncate (get_or buf 5 0)).bits (255 - bitflags.all.bits) == 0)
        ≡ true
    flags_pass =
        rw (bitflags.bits-from_bits_truncate (get_or buf 5 0) flags_u8, bitflags.bits-all)
          (rw (masked_out (get_or buf 5 0) flags_u8))

    pub try_from_accepts :
        (t : FrameType) (k : MessageKind)
        → HasMagic buf
        → HasVersion buf
        → HasType buf t
        → HasKind buf k
        → try_from bitflags buf ≡ ok (header_of buf t k)
    unfolding try_from
    try_from_accepts t k m v ht hk = rw (
      eq→bytes_eq (slice buf 0 4) msip_magic m,
      v,
      flags_pass,
      (frame_type_try_from_iff (from_be_bytes (slice buf 6 8)) t).1 ht,
      (message_kind_try_from_iff (from_be_bytes (slice buf 8 10)) k).1 hk,
      from_bits_truncate-known (get_or buf 5 0) flags_u8,
    )

    pub refuse_magic :
        slice buf 0 4 ≢ msip_magic → try_from bitflags buf ≡ err (ascii "invalid magic")
    unfolding try_from
    refuse_magic m = rw (bytes_eq-false (slice buf 0 4) msip_magic m)

    pub refuse_version :
        HasMagic buf
        → get_or buf 4 0 ≢ 1
        → try_from bitflags buf ≡ err (ascii "unsupported version")
    unfolding try_from
    refuse_version m v =
        rw (eq→bytes_eq (slice buf 0 4) msip_magic m, ==-false (get_or buf 4 0) 1 v)

    pub refuse_type :
        HasMagic buf
        → HasVersion buf
        → ((t : FrameType) → ¬ HasType buf t)
        → try_from bitflags buf ≡ err (ascii "invalid frame type")
    unfolding try_from
    refuse_type m v ht = rw (
      eq→bytes_eq (slice buf 0 4) msip_magic m,
      v,
      flags_pass,
      frame_type_refused (from_be_bytes (slice buf 6 8)) ht,
    )

    pub refuse_kind :
        (t : FrameType)
        → HasMagic buf
        → HasVersion buf
        → HasType buf t
        → ((k : MessageKind) → ¬ HasKind buf k)
        → try_from bitflags buf ≡ err (ascii "invalid message kind")
    unfolding try_from
    refuse_kind t m v ht hk = rw (
      eq→bytes_eq (slice buf 0 4) msip_magic m,
      v,
      flags_pass,
      (frame_type_try_from_iff (from_be_bytes (slice buf 6 8)) t).1 ht,
      message_kind_refused (from_be_bytes (slice buf 8 10)) hk,
    )
