-- ===== src/Client/Stream/Runs.antt =====
-- `handle_data` as a sequence of rounds that ends by waiting for more input (internals.rs).
use mip_clients.Common.{
  ℕ, zero, suc, ◌≡◌, ◌<◌, ap, ◌∙◌, Bytes, List, [], ◌++◌, some, length, arith, append-nil,
}
use mip_clients.Protocol.{Bitflags}
use mip_clients.Client.Events.{Callbacks, Call}
use mip_clients.Client.Stream.{stop, next, data_round, data_loop, handle_data, prepend}
use mip_clients.Client.Stream.Rounds.{waits, clears, goes, outcome, data_round_shrinks}

module _ (bitflags : Bitflags) (cbs : Callbacks) where
  -- From a buffer, through the given calls, to a buffer that waits for more input.
  pub data Runs : Bytes → List Call → Bytes → Type 0 where
    done :
        {b : Bytes} {calls : List Call} {rest : Bytes}
        → data_round bitflags cbs b ≡ stop b []
        → calls ≡ []
        → rest ≡ b
        → Runs b calls rest
    round :
        {b : Bytes} {calls : List Call} {rest : Bytes} (r : Bytes) (c more : List Call)
        → data_round bitflags cbs b ≡ next r c
        → calls ≡ c ++ more
        → Runs r more rest
        → Runs b calls rest

  pub loop_stop :
      (fuel : ℕ) (b : Bytes) {r : Bytes} {c : List Call}
      → data_round bitflags cbs b ≡ stop r c
      → data_loop bitflags cbs (suc fuel) b ≡ some (r, c)
  unfolding data_loop
  loop_stop fuel b e = rw (e, data_loop)

  pub loop_next :
      (fuel : ℕ) (b : Bytes) {r : Bytes} {c : List Call}
      → data_round bitflags cbs b ≡ next r c
      → data_loop bitflags cbs (suc fuel) b ≡ prepend c (data_loop bitflags cbs fuel r)
  unfolding data_loop
  loop_next fuel b e = rw (e, data_loop)

  loop_Runs :
      (fuel : ℕ) (b : Bytes) (calls : List Call) (rest : Bytes)
      → Runs b calls rest
      → length b < fuel
      → data_loop bitflags cbs fuel b ≡ some (rest, calls)
  loop_Runs zero b calls rest run h = absurd (omega arith)
  loop_Runs (suc fuel) b calls rest (done e ec er) h = rw (ec, er) (loop_stop fuel b e)
  loop_Runs (suc fuel) b calls rest (round r c more e ec run) h =
      let shorter = data_round_shrinks bitflags cbs b r c e in
      rw ec (loop_next fuel b e ∙ ap (prepend c) (loop_Runs fuel r more rest run (omega arith)))

  pub handle_data-Runs :
      (b : Bytes) (calls : List Call) (rest : Bytes)
      → Runs b calls rest
      → handle_data bitflags cbs b ≡ some (rest, calls)
  unfolding handle_data
  handle_data-Runs b calls rest run = loop_Runs (suc (length b)) b calls rest run (omega arith)

  -- More fuel than the buffer has bytes does not matter.
  loop_total :
      (fuel : ℕ) (b : Bytes)
      → length b < fuel
      → (out : Bytes × List Call) × (data_loop bitflags cbs fuel b ≡ some out)
  loop_total zero b h = absurd (omega arith)
  loop_total (suc fuel) b h = elim (outcome bitflags cbs b) [
    | waits e ↦ ((b, []), loop_stop fuel b e)
    | clears _ e ↦ (_, loop_stop fuel b (rw append-nil at (e [])))
    | goes r c e ↦
        let e' : data_round bitflags cbs b ≡ next r c = simp append-nil at (e []) in
        let shorter = data_round_shrinks bitflags cbs b r c e' in
        let (out, more) = loop_total fuel r (omega arith) in
        ((out.0, c ++ out.1), loop_next fuel b e' ∙ ap (prepend c) more)
  ]

  -- The loop of `handle_data` ends on every buffer, well formed or not.
  pub handle_data_total :
      (b : Bytes) → (out : Bytes × List Call) × (handle_data bitflags cbs b ≡ some out)
  unfolding handle_data
  handle_data_total b = loop_total (suc (length b)) b (omega arith)
