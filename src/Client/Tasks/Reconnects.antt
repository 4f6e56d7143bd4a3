-- ===== src/Client/Tasks/Reconnects.antt =====
-- What the read task announces when a connection ends (internals.rs, behind the loop of
-- `spawn_read_task`).
use mip_clients.Common.{
  ℕ, ◌≡◌, refl, ap, ◌∙◌, true, false, ◌&&◌, ◌||◌, ◌==◌, leb, if◌then◌else◌, List, [], ◌++◌, map,
  arith, append-nil,
}
use mip_clients.Protocol.{Bitflags}
use mip_clients.Client.Events.{Call}
use mip_clients.Client.State.{MipClient}
use mip_clients.Client.Tasks.{ReadResult, attempt, read_step, read_attempt, read_decide, read_close}
use mip_clients.Client.Tasks.Disconnects.{read_run, wind_up}

attempt_first : (c : MipClient) → c.reconnect_attempts ≡ 0 → attempt c ≡ 1
attempt_first c e = omega arith

-- The calls of the reconnect callbacks, for a first attempt.
abbrev pub announced : MipClient → List Call
announced c =
    if c.options.auto_reconnect && c.running
    then map (Call.reconnecting 1) c.callbacks.on_reconnecting
    else []

within : (limit : ℕ) → (limit == 0 || leb 1 limit) ≡ true
within limit = ground arith

first_attempt :
    (c : MipClient)
    → c.reconnect_attempts ≡ 0
    → (read_attempt c).2 ≡ map (Call.reconnecting 1) c.callbacks.on_reconnecting
unfolding read_attempt
first_attempt c e = rw (attempt_first c e, within c.options.max_reconnect_attempts) refl

first_decision : (c : MipClient) → c.reconnect_attempts ≡ 0 → (read_decide c).2 ≡ announced c
unfolding read_decide
first_decision c e = ground (arith, first_attempt c e)

-- Behind the decision the task makes no more calls.
decided_quiet :
    (bitflags : Bitflags) (c : MipClient) (r : ReadResult)
    → (read_step bitflags (read_decide c).1 (read_decide c).0 r).2 ≡ []
unfolding read_step read_decide read_attempt
decided_quiet bitflags c r = ground arith

wind_up_calls :
    (bitflags : Bitflags) (c : MipClient)
    → let d = record c { connected = false } in
      (wind_up bitflags c).2
      ≡ (read_close c).2
        ++ ((read_decide d).2
            ++ ((read_step bitflags (read_decide d).1 (read_decide d).0 ReadResult.eof).2 ++ []))
unfolding read_run read_step read_close
wind_up_calls bitflags c = refl

-- The calls of a disconnect, if there is one.
abbrev pub parting : MipClient → List Call
parting c = if c.connected then map Call.disconnect c.callbacks.on_disconnect else []

-- When a connection ends before anything has counted an attempt, as `connect` leaves it, and nothing
-- else changes the client, the read task calls the disconnect callbacks if it was connected, then,
-- if it is running and is to reconnect, the reconnect callbacks with attempt 1, and nothing else:
-- whatever the limit is, the attempts are never reported as used up.
pub wind_up-first :
    (bitflags : Bitflags) (c : MipClient)
    → c.reconnect_attempts ≡ 0
    → (wind_up bitflags c).2 ≡ parting c ++ announced c
unfolding read_close
wind_up-first bitflags c e =
    let d = record c { connected = false } in
    wind_up_calls bitflags c
    ∙ ap (λ xs. parting c ++ ((read_decide d).2 ++ (xs ++ [])))
        (decided_quiet bitflags d ReadResult.eof)
    ∙ ap (λ xs. parting c ++ xs) (append-nil (read_decide d).2 ∙ first_decision d e)
