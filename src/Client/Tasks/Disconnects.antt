-- ===== src/Client/Tasks/Disconnects.antt =====
-- How the read task ends a connection (internals.rs, behind the loop of `spawn_read_task`).
use mip_clients.Common.{
  ℕ, suc, ◌+◌, Bool, true, ◌≡◌, refl, ap, ◌∙◌, false, Bytes, List, [], ◌∷◌, ◌++◌, map, length,
  arith, if◌then◌else◌, Option, none, some,
}
use mip_clients.Protocol.{Bitflags, Header}
use mip_clients.Client.Types.{MipError}
use mip_clients.Client.Events.{Callback, Callbacks, Call, emit_error}
use mip_clients.Client.Dispatch.{process_frame}
use mip_clients.Client.Dispatch.Fanout.{Notice, tell, tell_all, notices, process_frame-tell}
use mip_clients.Client.Stream.{handle_data}
use mip_clients.Client.Stream.Calls.{count-handle_data}
use mip_clients.Client.State.{MipClient}
use mip_clients.Client.Tasks.{
  ReadPhase, ReadResult, closing, deciding, sleeping, ended, checking, reading, read_step, attempt,
  received,
}

-- The read task run with the answers of `read`, one for each step, each step on the client as the
-- last one left it: the last phase, the client, and all calls.
unfoldable pub read_run :
    Bitflags → MipClient → ReadPhase → List ReadResult → ReadPhase × MipClient × List Call
read_run bitflags c phase [] = (phase, c, [])
read_run bitflags c phase (r ∷ rs) =
    let (phase', c', calls) = read_step bitflags c phase r in
    let (last, c'', more) = read_run bitflags c' phase' rs in (last, c'', calls ++ more)

-- The end of the task, from the end of its loop on.
abbrev pub wind_up : Bitflags → MipClient → ReadPhase × MipClient × List Call
wind_up bitflags c =
    read_run bitflags c closing (ReadResult.eof ∷ ReadResult.eof ∷ ReadResult.eof ∷ [])

-- When the loop of the read task has ended and nothing else changes the client, the task ends too,
-- with the client not connected: it connects again on no path, also where it has called the
-- reconnect callbacks.
pub wind_up-ended :
    (bitflags : Bitflags) (c : MipClient)
    → ((wind_up bitflags c).0 ≡ ended) × ((wind_up bitflags c).1.connected ≡ false)
unfolding read_run read_step
wind_up-ended bitflags c = ground arith

-- The calls of disconnect callbacks.
abbrev pub farewells : List Call → ℕ
farewells [] = 0
farewells (Call.disconnect f ∷ calls) = suc (farewells calls)
farewells (_ ∷ calls) = farewells calls

pub farewells-append : (xs ys : List Call) → farewells (xs ++ ys) ≡ farewells xs + farewells ys
farewells-append [] ys = omega arith
farewells-append (Call.disconnect f ∷ xs) ys = omega (arith, farewells-append xs ys)
farewells-append (_ ∷ xs) ys = farewells-append xs ys

pub farewells-map :
    (g : ℕ → Call) (l : List ℕ)
    → ((f : ℕ) (xs : List Call) → farewells (g f ∷ xs) ≡ farewells xs)
    → farewells (map g l) ≡ 0
farewells-map g [] h = refl
farewells-map g (f ∷ l) h = h f (map g l) ∙ farewells-map g l h

-- The calls of disconnect callbacks that are still to come: one for each callback while connected.
abbrev pub owed : MipClient → ℕ
owed c = if c.connected then length c.callbacks.on_disconnect else 0

-- The callbacks of a list that a test picks.
abbrev pub picked : (Callback → Bool) → List Callback → ℕ
picked pick [] = 0
picked pick (f ∷ l) = (if pick f then 1 else 0) + picked pick l

picked-all : (l : List Callback) → picked (λ f. true) l ≡ length l
picked-all [] = refl
picked-all (f ∷ l) = omega (arith, picked-all l)

module _ (pick : Callback → Bool) where
  -- The calls of the disconnect callbacks that the test picks.
  abbrev pub farewells_to : List Call → ℕ
  farewells_to [] = 0
  farewells_to (Call.disconnect f ∷ calls) = (if pick f then 1 else 0) + farewells_to calls
  farewells_to (_ ∷ calls) = farewells_to calls

  pub farewells_to-append :
      (xs ys : List Call) → farewells_to (xs ++ ys) ≡ farewells_to xs + farewells_to ys
  farewells_to-append [] ys = omega arith
  farewells_to-append (Call.disconnect f ∷ xs) ys = omega (arith, farewells_to-append xs ys)
  farewells_to-append (_ ∷ xs) ys = farewells_to-append xs ys

  farewells_to-map :
      (g : ℕ → Call) (l : List ℕ)
      → ((f : ℕ) (xs : List Call) → farewells_to (g f ∷ xs) ≡ farewells_to xs)
      → farewells_to (map g l) ≡ 0
  farewells_to-map g [] h = refl
  farewells_to-map g (f ∷ l) h = h f (map g l) ∙ farewells_to-map g l h

  farewells_to-disconnect : (l : List ℕ) → farewells_to (map Call.disconnect l) ≡ picked pick l
  farewells_to-disconnect [] = refl
  farewells_to-disconnect (f ∷ l) = omega (arith, farewells_to-disconnect l)

  farewells_to-emit_error : (cbs : Callbacks) (e : MipError) → farewells_to (emit_error cbs e) ≡ 0
  unfolding emit_error
  farewells_to-emit_error cbs e = farewells_to-map (Call.error e) cbs.on_error (λ f xs. refl)

  farewells_to-tell : (cbs : Callbacks) (n : Notice) → farewells_to (tell cbs n) ≡ 0
  farewells_to-tell cbs (Notice.frame h p) = farewells_to-map _ cbs.on_frame (λ f xs. refl)
  farewells_to-tell cbs (Notice.event m) = farewells_to-map _ cbs.on_event (λ f xs. refl)
  farewells_to-tell cbs (Notice.message m) = farewells_to-map _ cbs.on_message (λ f xs. refl)
  farewells_to-tell cbs (Notice.ack id) = farewells_to-map _ cbs.on_ack (λ f xs. refl)
  farewells_to-tell cbs Notice.pong = farewells_to-map _ cbs.on_pong (λ f xs. refl)
  farewells_to-tell cbs (Notice.error e) = farewells_to-map _ cbs.on_error (λ f xs. refl)

  farewells_to-tell_all : (cbs : Callbacks) (ns : List Notice) → farewells_to (tell_all cbs ns) ≡ 0
  farewells_to-tell_all cbs [] = refl
  farewells_to-tell_all cbs (n ∷ ns) = omega (
    arith,
    farewells_to-append (tell cbs n) (tell_all cbs ns),
    farewells_to-tell cbs n,
    farewells_to-tell_all cbs ns,
  )

  farewells_to-process_frame :
      (h : Header) (p : Bytes) (cbs : Callbacks) → farewells_to (process_frame h p cbs) ≡ 0
  farewells_to-process_frame h p cbs =
      ap farewells_to (process_frame-tell h p cbs)
      ∙ farewells_to-tell_all cbs (notices h p h.frame_type)

  -- The calls that are still to come of the callbacks that the test picks.
  abbrev pub owed_to : MipClient → ℕ
  owed_to c = if c.connected then picked pick c.callbacks.on_disconnect else 0

farewells_to-all : (calls : List Call) → farewells_to (λ f. true) calls ≡ farewells calls
farewells_to-all [] = refl
farewells_to-all (Call.disconnect f ∷ calls) = omega (arith, farewells_to-all calls)
farewells_to-all (_ ∷ calls) = farewells_to-all calls

owed_to-all : (c : MipClient) → owed_to (λ f. true) c ≡ owed c
owed_to-all c = ap (λ n. if c.connected then n else 0) (picked-all c.callbacks.on_disconnect)

module _ (bitflags : Bitflags) (pick : Callback → Bool) where
  farewells_to-handle_data :
      (cbs : Callbacks) (b r : Bytes) (calls : List Call)
      → handle_data bitflags cbs b ≡ some (r, calls)
      → farewells_to pick calls ≡ 0
  farewells_to-handle_data cbs =
      count-handle_data bitflags cbs (farewells_to pick) (farewells_to-append pick) refl
        (farewells_to-emit_error pick cbs) (λ h p. farewells_to-process_frame pick h p cbs)

  received_pays :
      (c : MipClient) (b : Bytes) (o : Option (Bytes × List Call))
      → handle_data bitflags c.callbacks b ≡ o
      → farewells_to pick (received c o).2 + owed_to pick (received c o).1 ≡ owed_to pick c
  unfolding received
  received_pays c b none e = omega arith
  received_pays c b (some (r, calls)) e =
      omega (arith, farewells_to-handle_data c.callbacks b r calls e)

  -- A step pays what it no longer owes.
  step_pays_to :
      (c : MipClient) (phase : ReadPhase) (r : ReadResult)
      → farewells_to pick (read_step bitflags c phase r).2
          + owed_to pick (read_step bitflags c phase r).1
        ≡ owed_to pick c
  unfolding read_step
  step_pays_to c (checking b) r = ground arith
  step_pays_to c (reading b) ReadResult.eof = ground arith
  step_pays_to c (reading b) (ReadResult.got chunk) =
      received_pays c (b ++ chunk) (handle_data bitflags c.callbacks (b ++ chunk)) refl
  step_pays_to c (reading b) (ReadResult.failed k) =
      ground (arith, farewells_to-emit_error pick c.callbacks (MipError.io k))
  step_pays_to c closing r = ground (arith, farewells_to-disconnect pick c.callbacks.on_disconnect)
  step_pays_to c deciding r = ground (
    arith,
    farewells_to-map pick (Call.reconnecting (attempt c)) c.callbacks.on_reconnecting
        (λ f xs. refl),
    farewells_to-emit_error pick c.callbacks
        (MipError.max_reconnect_attempts c.options.max_reconnect_attempts),
  )
  step_pays_to c (sleeping delay) r = ground arith
  step_pays_to c ended r = ground arith

  -- However the read task runs, from any phase, while nothing else changes the client: for every
  -- choice of callbacks, the calls of disconnect callbacks chosen, and those that are still owed at the
  -- end, are those that were owed at the start, one for each time that a chosen callback is registered
  -- if the client was connected.
  pub farewells_to-read_run :
      (c : MipClient) (phase : ReadPhase) (rs : List ReadResult)
      → farewells_to pick (read_run bitflags c phase rs).2
          + owed_to pick (read_run bitflags c phase rs).1
        ≡ owed_to pick c
  unfolding read_run
  farewells_to-read_run c phase [] = omega arith
  farewells_to-read_run c phase (r ∷ rs) =
      let (phase', c', calls) = read_step bitflags c phase r in
      omega (
        arith,
        farewells_to-append pick calls (read_run bitflags c' phase' rs).2,
        step_pays_to c phase r,
        farewells_to-read_run c' phase' rs,
      )

-- A step pays what it no longer owes.
pub step_pays :
    (bitflags : Bitflags) (c : MipClient) (phase : ReadPhase) (r : ReadResult)
    → farewells (read_step bitflags c phase r).2 + owed (read_step bitflags c phase r).1 ≡ owed c
step_pays bitflags c phase r =
    let out = read_step bitflags c phase r in
    omega (
      arith,
      step_pays_to bitflags (λ f. true) c phase r,
      farewells_to-all out.2,
      owed_to-all out.1,
      owed_to-all c,
    )
