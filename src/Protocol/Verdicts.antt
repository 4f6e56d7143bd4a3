-- ===== src/Protocol/Verdicts.antt =====
-- `TryFrom<[u8; 24]> for Header` as a whole: the first check that fails names the error (header.rs).
use mip_clients.Common.{
  ℕ, ◌≡◌, ◌≢◌, ◌<◌, ◌⊎◌, refl, ap, Bool, false, Bool-cases, inl, inr, Bytes, Text, arith, ascii,
  bytes_eq, bytes_eq→eq, bytes_eq_refl, slice, get_or, from_be_bytes, Result, ok, err,
}
use mip_clients.Protocol.{
  Bitflags, Header, FrameType, MessageKind, try_from, frame_type_code, message_kind_code,
  frame_type_try_from, message_kind_try_from, msip_magic,
}
use mip_clients.Protocol.Codes.{frame_type_try_from_iff, message_kind_try_from_iff}
use mip_clients.Protocol.Decode.{
  HasMagic, HasVersion, HasType, HasKind, header_of, try_from_accepts, refuse_magic, refuse_version,
  refuse_type, refuse_kind,
}

-- The checks in their order, each with the answer that it leads to.
pub data Verdict (buf : Bytes) : Result Text Header → Type 0 where
  bad_magic : ¬ HasMagic buf → Verdict buf (err (ascii "invalid magic"))
  bad_version : HasMagic buf → ¬ HasVersion buf → Verdict buf (err (ascii "unsupported version"))
  bad_type :
      HasMagic buf
      → HasVersion buf
      → ((t : FrameType) → ¬ HasType buf t)
      → Verdict buf (err (ascii "invalid frame type"))
  bad_kind :
      (t : FrameType)
      → HasMagic buf
      → HasVersion buf
      → HasType buf t
      → ((k : MessageKind) → ¬ HasKind buf k)
      → Verdict buf (err (ascii "invalid message kind"))
  accepted :
      (t : FrameType) (k : MessageKind)
      → HasMagic buf
      → HasVersion buf
      → HasType buf t
      → HasKind buf k
      → Verdict buf (ok (header_of buf t k))

slice_cases : (xs ys : Bytes) → (xs ≡ ys) ⊎ (xs ≢ ys)
slice_cases xs ys = elim (Bool-cases (bytes_eq xs ys)) [
  | inl e ↦ inl (bytes_eq→eq xs ys e)
  | inr e ↦ inr (λ p. cc (e, ap (λ zs. bytes_eq xs zs) p, bytes_eq_refl xs))
]

number_cases : (a b : ℕ) → (a ≡ b) ⊎ (a ≢ b)
number_cases a b = ground arith

type_cases :
    (v : ℕ)
    → ((t : FrameType) × (v ≡ frame_type_code t)) ⊎ ((t : FrameType) → v ≢ frame_type_code t)
type_cases v = go (frame_type_try_from v) refl
  where
    go :
        (r : Result Unit FrameType)
        → frame_type_try_from v ≡ r
        → ((t : FrameType) × (v ≡ frame_type_code t)) ⊎ ((t : FrameType) → v ≢ frame_type_code t)
    go (ok t) e = inl (t, (frame_type_try_from_iff v t).0 e)
    go (err tt) e = inr (λ t h. cc (e, (frame_type_try_from_iff v t).1 h))

kind_cases :
    (v : ℕ)
    → ((k : MessageKind) × (v ≡ message_kind_code k))
      ⊎ ((k : MessageKind) → v ≢ message_kind_code k)
kind_cases v = go (message_kind_try_from v) refl
  where
    go :
        (r : Result Unit MessageKind)
        → message_kind_try_from v ≡ r
        → ((k : MessageKind) × (v ≡ message_kind_code k))
          ⊎ ((k : MessageKind) → v ≢ message_kind_code k)
    go (ok k) e = inl (k, (message_kind_try_from_iff v k).0 e)
    go (err tt) e = inr (λ k h. cc (e, (message_kind_try_from_iff v k).1 h))

module _ (bitflags : Bitflags) (buf : Bytes) (flags_u8 : get_or buf 5 0 < 256) where
  kind_Verdict :
      (t : FrameType)
      → HasMagic buf
      → HasVersion buf
      → HasType buf t
      → Verdict buf (try_from bitflags buf)
  kind_Verdict t m v ht = elim (kind_cases (from_be_bytes (slice buf 8 10))) [
    | inl (k, hk) ↦
        rw (try_from_accepts bitflags buf flags_u8 t k m v ht hk) (accepted t k m v ht hk)
    | inr hk ↦ rw (refuse_kind bitflags buf flags_u8 t m v ht hk) (bad_kind t m v ht hk)
  ]

  type_Verdict : HasMagic buf → HasVersion buf → Verdict buf (try_from bitflags buf)
  type_Verdict m v = elim (type_cases (from_be_bytes (slice buf 6 8))) [
    | inl (t, ht) ↦ kind_Verdict t m v ht
    | inr ht ↦ rw (refuse_type bitflags buf flags_u8 m v ht) (bad_type m v ht)
  ]

  version_Verdict : HasMagic buf → Verdict buf (try_from bitflags buf)
  version_Verdict m = elim (number_cases (get_or buf 4 0) 1) [
    | inl v ↦ type_Verdict m v
    | inr v ↦ rw (refuse_version bitflags buf flags_u8 m v) (bad_version m v)
  ]

  -- Over every buffer whose flags byte is a byte, `try_from` answers the first check that fails, in
  -- the order magic, version, frame type, message kind, and otherwise the header read from the
  -- buffer, with its undeclared flag bits unset.
  pub try_from-Verdict : Verdict buf (try_from bitflags buf)
  try_from-Verdict = elim (slice_cases (slice buf 0 4) msip_magic) [
    | inl m ↦ version_Verdict m
    | inr m ↦ rw (refuse_magic bitflags buf flags_u8 m) (bad_magic m)
  ]

abbrev says_invalid_flags : Result Text Header → Bool
says_invalid_flags (ok h) = false
says_invalid_flags (err e) = bytes_eq e (ascii "invalid flags")

-- No answer is "invalid flags".
Verdict-says : {buf : Bytes} {r : Result Text Header} → Verdict buf r → says_invalid_flags r ≡ false
Verdict-says (bad_magic _) = refl
Verdict-says (bad_version _ _) = refl
Verdict-says (bad_type _ _ _) = refl
Verdict-says (bad_kind _ _ _ _ _) = refl
Verdict-says (accepted _ _ _ _ _ _) = refl

pub Verdict-ok :
    {buf : Bytes} {r : Result Text Header} (h : Header)
    → Verdict buf r
    → r ≡ ok h
    → (t : FrameType) × (k : MessageKind) × HasMagic buf
      × HasVersion buf
      × HasType buf t
      × HasKind buf k
      × (h ≡ header_of buf t k)
Verdict-ok h (bad_magic _) e = cc
Verdict-ok h (bad_version _ _) e = cc
Verdict-ok h (bad_type _ _ _) e = cc
Verdict-ok h (bad_kind _ _ _ _ _) e = cc
Verdict-ok h (accepted t k m v ht hk) e = (t, k, m, v, ht, hk, cc)

-- The check that answers "invalid flags" never fails, whatever the flags byte is: it looks at the
-- flags after their undeclared bits were unset.
pub try_from-ne-invalid_flags :
    (bitflags : Bitflags) (buf : Bytes)
    → get_or buf 5 0 < 256
    → try_from bitflags buf ≢ err (ascii "invalid flags")
try_from-ne-invalid_flags bitflags buf u8 e =
    cc (ap says_invalid_flags e, Verdict-says (try_from-Verdict bitflags buf u8))
