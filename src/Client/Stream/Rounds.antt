-- ===== src/Client/Stream/Rounds.antt =====
-- One round of `handle_data`, its progress, and what more input changes of it (internals.rs).
use mip_clients.Common.{
  ℕ, ◌+◌, ◌-◌, ◌≡◌, ◌≤◌, Bytes, List, [], ◌++◌, length, take, drop, slice, Text, arith, ltb,
  from_be_bytes, Bool-cases, inl, inr, append-nil, ◌∙◌, Result, ok, err, length-append, length-drop,
  take-append, drop-append, bytes_eq, true, false,
}
use mip_clients.Protocol.{Bitflags, Header, try_from, msip_magic}
use mip_clients.Client.Types.{MipError}
use mip_clients.Client.Events.{Callbacks, Call, emit_error}
use mip_clients.Client.Dispatch.{process_frame}
use mip_clients.Client.Stream.{stop, next, payload_length, parsed, data_round}

pub slice-append :
    (xs ys : Bytes) (a b : ℕ) → a ≤ b → b ≤ length xs → slice (xs ++ ys) a b ≡ slice xs a b
slice-append xs ys a b h k =
    rw (drop-append a xs ys (omega arith))
      (take-append (b - a) (drop a xs) ys (omega (arith, length-drop a xs)))

pub payload_length-append :
    (xs ys : Bytes) → 24 ≤ length xs → payload_length (xs ++ ys) ≡ payload_length xs
unfolding payload_length
payload_length-append xs ys h = rw (slice-append xs ys 12 16 (omega arith) (omega arith))

-- The calls for a buffer that does not begin with the magic.
abbrev pub invalid_magic_calls : Callbacks → Bytes → List Call
invalid_magic_calls cbs b = emit_error cbs (MipError.invalid_magic (from_be_bytes (slice b 0 4)))

module _ (bitflags : Bitflags) (cbs : Callbacks) where
  parsed_shrinks :
      (b : Bytes) (res : Result Bytes Header) (r : Bytes) (c : List Call)
      → 24 + payload_length b ≤ length b
      → parsed bitflags cbs b res ≡ next r c
      → length r + 24 ≤ length b
  unfolding parsed
  parsed_shrinks b (err e) r c h p = ground (arith, length-drop 24 b)
  parsed_shrinks b (ok hd) r c h p = ground (arith, length-drop (24 + payload_length b) b)

  -- A round that goes on has removed 24 bytes at least.
  pub data_round_shrinks :
      (b r : Bytes) (c : List Call)
      → data_round bitflags cbs b ≡ next r c
      → length r + 24 ≤ length b
  unfolding data_round
  data_round_shrinks b r c p = ground (arith, parsed_shrinks b (try_from bitflags (take 24 b)) r c)

  parsed-append :
      (b : Bytes) (res : Result Bytes Header)
      → 24 + payload_length b ≤ length b
      → (r : Bytes) × (c : List Call) × ((x : Bytes)
          → parsed bitflags cbs (b ++ x) res ≡ next (r ++ x) c)
  unfolding parsed
  parsed-append b (err e) h =
      (drop 24 b, emit_error cbs (MipError.protocol e), λ x. rw (drop-append 24 b x (omega arith)))
  parsed-append b (ok hd) h = (
    drop (24 + payload_length b) b,
    process_frame hd (slice b 24 (24 + payload_length b)) cbs,
    λ x. rw (
      payload_length-append b x (omega arith),
      drop-append (24 + payload_length b) b x h,
      slice-append b x 24 (24 + payload_length b) (omega arith) h,
    ),
  )

  -- What a round does, also with more input behind the buffer.
  pub data Outcome (b : Bytes) : Type 0 where
    waits : data_round bitflags cbs b ≡ stop b [] → Outcome b
    clears :
        24 ≤ length b
        → ((x : Bytes) → data_round bitflags cbs (b ++ x) ≡ stop [] (invalid_magic_calls cbs b))
        → Outcome b
    goes :
        (r : Bytes) (c : List Call)
        → ((x : Bytes) → data_round bitflags cbs (b ++ x) ≡ next (r ++ x) c)
        → Outcome b

  module _ (b : Bytes) (full : ltb (length b) 24 ≡ false) where
    full-append : (x : Bytes) → ltb (length (b ++ x)) 24 ≡ false
    full-append x = ground (arith, length-append b x)

    pub clears-append :
        bytes_eq (slice b 0 4) msip_magic ≡ false
        → (x : Bytes) → data_round bitflags cbs (b ++ x) ≡ stop [] (invalid_magic_calls cbs b)
    unfolding data_round
    clears-append m x = rw (full-append x, slice-append b x 0 4 (omega arith) (ground arith), m)

    enough :
        (x : Bytes)
        → ltb (length b) (24 + payload_length b) ≡ false
        → ltb (length (b ++ x)) (24 + payload_length (b ++ x)) ≡ false
    enough x p = rw (payload_length-append b x (ground arith)) (ground (arith, length-append b x))

    goes-append :
        bytes_eq (slice b 0 4) msip_magic ≡ true
        → ltb (length b) (24 + payload_length b) ≡ false
        → (x : Bytes)
        → data_round bitflags cbs (b ++ x)
          ≡ parsed bitflags cbs (b ++ x) (try_from bitflags (take 24 b))
    unfolding data_round
    goes-append m p x = rw (
      full-append x,
      slice-append b x 0 4 (omega arith) (ground arith),
      m,
      enough x p,
      take-append 24 b x (ground arith),
    )

  pub waits_short : (b : Bytes) → ltb (length b) 24 ≡ true → data_round bitflags cbs b ≡ stop b []
  unfolding data_round
  waits_short b e = rw e

  pub waits_payload :
      (b : Bytes)
      → ltb (length b) 24 ≡ false
      → bytes_eq (slice b 0 4) msip_magic ≡ true
      → ltb (length b) (24 + payload_length b) ≡ true
      → data_round bitflags cbs b ≡ stop b []
  unfolding data_round
  waits_payload b e m p = rw (e, m, p)

  payload_Outcome :
      (b : Bytes) → ltb (length b) 24 ≡ false → bytes_eq (slice b 0 4) msip_magic ≡ true → Outcome b
  payload_Outcome b e m = elim (Bool-cases (ltb (length b) (24 + payload_length b))) [
    | inl p ↦ waits (waits_payload b e m p)
    | inr p ↦
        let res = try_from bitflags (take 24 b) in
        let grown = parsed-append b res (ground arith) in
        goes grown.0 grown.1 (λ x. goes-append b e m p x ∙ grown.2 x)
  ]

  pub outcome : (b : Bytes) → Outcome b
  outcome b = elim (Bool-cases (ltb (length b) 24)) [
    | inl e ↦ waits (waits_short b e)
    | inr e ↦ elim (Bool-cases (bytes_eq (slice b 0 4) msip_magic)) [
      | inl m ↦ payload_Outcome b e m
      | inr m ↦ clears (ground arith) (clears-append b e m)
    ]
  ]

  module _ (b : Bytes) (n : ℕ) (magic : bytes_eq (slice b 0 4) msip_magic ≡ true)
      (declared : payload_length b ≡ n) (complete : 24 + n ≤ length b) where
    full_round : data_round bitflags cbs b ≡ parsed bitflags cbs b (try_from bitflags (take 24 b))
    full_round =
        let full : ltb (length b) 24 ≡ false = ground arith in
        let enough' : ltb (length b) (24 + payload_length b) ≡ false = rw declared (ground arith) in
        let grown = goes-append b full magic enough' [] in simp append-nil at grown

    -- A round on a whole frame whose header is accepted.
    pub accepted_round :
        (h : Header)
        → try_from bitflags (take 24 b) ≡ ok h
        → data_round bitflags cbs b
          ≡ next (drop (24 + n) b) (process_frame h (slice b 24 (24 + n)) cbs)
    unfolding parsed
    accepted_round h e = full_round ∙ rw (e, parsed, declared)

    -- A round on a whole frame whose header is refused.
    pub refused_round :
        (t : Text)
        → try_from bitflags (take 24 b) ≡ err t
        → data_round bitflags cbs b ≡ next (drop 24 b) (emit_error cbs (MipError.protocol t))
    unfolding parsed
    refused_round t e = full_round ∙ rw (e, parsed)
