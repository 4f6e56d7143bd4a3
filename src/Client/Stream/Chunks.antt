-- ===== src/Client/Stream/Chunks.antt =====
-- How the network cuts the stream into reads does not matter (internals.rs, the read task and
-- `handle_data`).
use mip_clients.Common.{
  ◌≡◌, ◌≤◌, refl, ap, sym, ◌∙◌, Bytes, List, [], ◌∷◌, ◌++◌, some, length, arith, append-nil,
  append_assoc, length-append,
}
use mathlib.Core.List.{flatten}
use mathlib.Core.Path.{subst}
use mip_clients.Protocol.{Bitflags}
use mip_clients.Client.Events.{Callbacks, Call}
use mip_clients.Client.Stream.{stop, next, data_round, handle_data, read_chunks, prepend}
use mip_clients.Client.Stream.Rounds.{Outcome, waits, clears, goes, outcome}
use mip_clients.Client.Stream.Runs.{Runs, done, round, handle_data-Runs}

stop-rest : {a b : Bytes} {c d : List Call} → stop a c ≡ stop b d → a ≡ b
stop-rest p = cc

next-injective : {a b : Bytes} {c d : List Call} → next a c ≡ next b d → (a ≡ b) × (c ≡ d)
next-injective p = (cc, cc)

module _ (bitflags : Bitflags) (cbs : Callbacks) where
  -- The buffer holds less than a frame.
  abbrev pub Waits : Bytes → Type 0
  Waits b = data_round bitflags cbs b ≡ stop b []

  Runs-Waits :
      (b : Bytes) (calls : List Call) (rest : Bytes) → Runs bitflags cbs b calls rest → Waits rest
  Runs-Waits b calls rest (done e ec er) = rw er e
  Runs-Waits b calls rest (round r c more e ec run) = Runs-Waits r more rest run

  abbrev Split : Bytes → Bytes → List Call → Bytes → Type 0
  Split b x calls rest =
      (first : List Call) × (mid : Bytes) × (second : List Call) × Runs bitflags cbs b first mid
      × Runs bitflags cbs (mid ++ x) second rest
      × (calls ≡ first ++ second)

  Split-round :
      {b x r rest : Bytes} {c more calls : List Call}
      → data_round bitflags cbs b ≡ next r c
      → calls ≡ c ++ more
      → Split r x more rest
      → Split b x calls rest
  Split-round {c} e ec (first, mid, second, run, run', em) = (
    c ++ first,
    mid,
    second,
    round _ c first e refl run,
    run',
    ec ∙ ap (λ t. c ++ t) em ∙ sym (append_assoc c first second),
  )

  -- A round that stops with an empty buffer stops no run over a buffer of 24 bytes.
  clears_no_run :
      {w : Bytes} {c calls : List Call} (b x rest : Bytes)
      → w ≡ b ++ x
      → 24 ≤ length b
      → data_round bitflags cbs (b ++ x) ≡ stop [] c
      → Runs bitflags cbs w calls rest
      → ⊥
  clears_no_run b x rest ew h e (done d ec er) =
      omega (arith, length-append b x, ap length (stop-rest (sym e ∙ d')))
    where
      d' : data_round bitflags cbs (b ++ x) ≡ stop (b ++ x) []
      d' = rw ew at d
  clears_no_run b x rest ew h e (round r c more d ec run) = cc (e, d, ew)

  -- A run over a buffer and more input is a run over the buffer, and one from what it left.
  Split-at :
      (w : Bytes) (calls : List Call) (rest : Bytes) (b x : Bytes)
      → Runs bitflags cbs w calls rest
      → w ≡ b ++ x
      → Outcome bitflags cbs b
      → Split b x calls rest
  Split-at w calls rest b x run ew (waits e) =
      ([], b, calls, done e refl refl, subst (λ v. Runs bitflags cbs v calls rest) ew run, refl)
  Split-at w calls rest b x run ew (clears h e) = absurd (clears_no_run b x rest ew h (e x) run)
  Split-at w calls rest b x (done d ec er) ew (goes r c e) = cc (d, e x, ew)
  Split-at w calls rest b x (round r' c' more d ec run) ew (goes r c e) =
      let both : next r' c' ≡ next (r ++ x) c = cc (d, e x, ew) in
      let same = next-injective both in
      let here : data_round bitflags cbs b ≡ next r c = simp append-nil at (e []) in
      Split-round here (rw (← same.1) ec)
        (Split-at r' more rest r x run same.0 (outcome bitflags cbs r))

  read_chunks_step :
      (b chunk : Bytes) (chunks : List Bytes) {r : Bytes} {c : List Call}
      → handle_data bitflags cbs (b ++ chunk) ≡ some (r, c)
      → read_chunks bitflags cbs b (chunk ∷ chunks) ≡ prepend c (read_chunks bitflags cbs r chunks)
  unfolding read_chunks
  read_chunks_step b chunk chunks e = rw (e, read_chunks)

  Runs-waiting :
      {b : Bytes} {calls : List Call} {rest : Bytes}
      → Waits b
      → Runs bitflags cbs b calls rest
      → (calls ≡ []) × (rest ≡ b)
  Runs-waiting w (done e ec er) = (ec, er)
  Runs-waiting w (round r c more e ec run) = cc (w, e)

  -- Chunks fed one by one to a buffer that holds less than a frame make the calls, and leave the
  -- rest, that one call on the whole makes and leaves, if that ends by waiting for more input.
  pub read_chunks-Runs :
      (b : Bytes) (chunks : List Bytes) (calls : List Call) (rest : Bytes)
      → Waits b
      → Runs bitflags cbs (b ++ flatten chunks) calls rest
      → read_chunks bitflags cbs b chunks ≡ some (rest, calls)
  unfolding flatten
  read_chunks-Runs b [] calls rest w run =
      let (ec, er) =
        Runs-waiting w (subst (λ v. Runs bitflags cbs v calls rest) (append-nil b) run) in
      rw (ec, er) (unfold read_chunks in refl)
  read_chunks-Runs b (chunk ∷ chunks) calls rest w run =
      let (first, mid, second, run₁, run₂, e) =
        Split-at _ calls rest (b ++ chunk) (flatten chunks) run
          (sym (append_assoc b chunk (flatten chunks))) (outcome bitflags cbs (b ++ chunk)) in
      rw e (
        read_chunks_step b chunk chunks (handle_data-Runs bitflags cbs (b ++ chunk) first mid run₁)
        ∙ ap (prepend first)
            (read_chunks-Runs mid chunks second rest (Runs-Waits (b ++ chunk) first mid run₁) run₂))
