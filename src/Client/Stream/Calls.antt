-- ===== src/Client/Stream/Calls.antt =====
-- A fact about the calls of every frame and every error is one about the calls of `handle_data`
-- (internals.rs).
use mip_clients.Common.{
  ℕ, zero, suc, ◌+◌, ◌≡◌, refl, Bytes, List, [], ◌++◌, Option, none, some, Result, ok, err, length,
  slice, from_be_bytes, take, arith,
}
use mip_clients.Protocol.{Bitflags, Header, try_from}
use mip_clients.Client.Types.{MipError}
use mip_clients.Client.Events.{Callbacks, Call, emit_error}
use mip_clients.Client.Dispatch.{process_frame}
use mip_clients.Client.Stream.{
  Round, stop, next, parsed, data_round, data_loop, handle_data, prepend,
}
use mip_clients.Client.Stream.Runs.{loop_stop, loop_next}

module _ (bitflags : Bitflags) (cbs : Callbacks) (count : List Call → ℕ)
    (count-append : (xs ys : List Call) → count (xs ++ ys) ≡ count xs + count ys)
    (count-nil : count [] ≡ 0) (count-error : (e : MipError) → count (emit_error cbs e) ≡ 0)
    (count-frame : (h : Header) (p : Bytes) → count (process_frame h p cbs) ≡ 0) where
  abbrev round_calls : Round → List Call
  round_calls (stop b calls) = calls
  round_calls (next b calls) = calls

  count-parsed :
      (b : Bytes) (r : Result Bytes Header) → count (round_calls (parsed bitflags cbs b r)) ≡ 0
  unfolding parsed
  count-parsed b (err e) = count-error (MipError.protocol e)
  count-parsed b (ok h) = count-frame h _

  count-data_round : (b : Bytes) → count (round_calls (data_round bitflags cbs b)) ≡ 0
  unfolding data_round
  count-data_round b = ground (
    arith,
    count-nil,
    count-error (MipError.invalid_magic (from_be_bytes (slice b 0 4))),
    count-parsed b (try_from bitflags (take 24 b)),
  )

  abbrev loop_count : Option (Bytes × List Call) → ℕ
  loop_count none = 0
  loop_count (some (b, calls)) = count calls

  loop_count-prepend :
      (calls : List Call) (o : Option (Bytes × List Call))
      → count calls ≡ 0
      → loop_count o ≡ 0
      → loop_count (prepend calls o) ≡ 0
  loop_count-prepend calls none h k = refl
  loop_count-prepend calls (some (b, more)) h k = omega (arith, count-append calls more)

  count-data_loop : (fuel : ℕ) (b : Bytes) → loop_count (data_loop bitflags cbs fuel b) ≡ 0
  count-data_loop zero b = unfold data_loop in refl
  count-data_loop (suc fuel) b = go (data_round bitflags cbs b) refl (λ r. count-data_loop fuel r)
    where
      go :
          (round : Round)
          → data_round bitflags cbs b ≡ round
          → ((r : Bytes) → loop_count (data_loop bitflags cbs fuel r) ≡ 0)
          → loop_count (data_loop bitflags cbs (suc fuel) b) ≡ 0
      go (stop r calls) e ih = rw (loop_stop bitflags cbs fuel b e) (rw e at (count-data_round b))
      go (next r calls) e ih = rw (loop_next bitflags cbs fuel b e) (
          loop_count-prepend calls (data_loop bitflags cbs fuel r) (rw e at (count-data_round b))
            (ih r))

  -- What counts nothing in the calls of a frame and of an error counts nothing in those of a buffer.
  pub count-handle_data :
      (b r : Bytes) (calls : List Call)
      → handle_data bitflags cbs b ≡ some (r, calls)
      → count calls ≡ 0
  unfolding handle_data
  count-handle_data b r calls e = rw e at (count-data_loop (suc (length b)) b)
