-- ===== src/Main.antt =====
-- mip-client-rust/src/main.rs: the example that connects, subscribes, publishes, pings, waits for
-- Ctrl+C and disconnects. What it prints, and what its callbacks print, is left out; its eight
-- callbacks are known by the numbers 0 to 7, in the order of their registration.
pub mod Session
pub mod Failures
use mip_clients.Common.{ℕ, true, Text, ascii, List, [], ◌∷◌, Option, none, some, Result, ok, err}
use mip_clients.Protocol.{no_flags}
use mip_clients.Client.Types.{
  MipError, MipResult, IoErrorKind, MipClientOptions, default_options, with_client_id, with_host,
  with_port, with_auto_reconnect, with_reconnect_delay_ms, with_max_reconnect_attempts,
  with_ping_interval_ms,
}
use mip_clients.Client.Events.{Call}
use mip_clients.Client.Sending.{Mpsc, Reading}
use mip_clients.Client.State.{MipClient, EventKind, client_new, register, drop_client}
use mip_clients.Client.Api.{World, subscribe, publish, ping}
use mip_clients.Client.Connection.{Dialled, connect, disconnect_client}

unfoldable pub example_options : MipClientOptions
unfolding with_client_id with_host with_port with_auto_reconnect with_reconnect_delay_ms
    with_max_reconnect_attempts with_ping_interval_ms
example_options =
    let named = with_host (with_client_id default_options (ascii "")) (ascii "127.0.0.1") in
    let again = with_auto_reconnect (with_port named 9000) true in
    let delayed = with_max_reconnect_attempts (with_reconnect_delay_ms again 3000) 5 in
    with_ping_interval_ms delayed 30000

unfoldable pub example_client : MipClient
unfolding client_new example_options register
example_client =
    let c = client_new example_options in
    let c0 = register EventKind.on_connect c 0 in
    let c1 = register EventKind.on_disconnect c0 1 in
    let c2 = register EventKind.on_reconnecting c1 2 in
    let c3 = register EventKind.on_message c2 3 in
    let c4 = register EventKind.on_event c3 4 in
    let c5 = register EventKind.on_ack c4 5 in
    let c6 = register EventKind.on_pong c5 6 in register EventKind.on_error c6 7

abbrev pub topic : Text
topic = ascii "test/topic"

abbrev pub greeting : Text
greeting = ascii "Hello from Rust!"

-- The `Box<dyn std::error::Error>` that `main` answers.
pub data MainError : Type 0 where
  boxed_mip : MipError → MainError
  boxed_io : IoErrorKind → MainError

abbrev pub MainResult : Type 0
MainResult = Result MainError (Unit {0})

module _ {Chan : Type 0} (mpsc : Mpsc Chan) where
  -- `?` on what a call of the client returns; the client goes on as the call left it.
  unfoldable pub and_then {ℓ} :
      {A : Type ℓ}
      → MipResult A × World Chan
      → (World Chan → MainResult × World Chan)
      → MainResult × World Chan
  and_then (ok a, w) next = next w
  and_then (err e, w) next = (err (MainError.boxed_mip e), w)

  -- The three requests, each with what the clock reads.
  unfoldable pub example_requests :
      World Chan → Reading → Reading → Reading → MainResult × World Chan
  unfolding and_then subscribe publish ping
  example_requests w now1 now2 now3 = and_then (subscribe mpsc w now1 topic true) (λ w1.
      and_then (publish mpsc w1 now2 topic greeting no_flags)
        (λ w2. and_then (ping mpsc w2 now3) (λ w3. (ok tt, w3))))

  -- From the new client to the last request, and the calls that `connect` makes.
  unfoldable pub example_session :
      Dialled → Reading → Reading → Reading → Reading → MainResult × World Chan × List Call
  unfolding example_requests example_client connect
  example_session dialled now0 now1 now2 now3 =
      let (result, w, calls) =
        connect mpsc (record { client = example_client; channels = [] }) dialled now0 in
      let (last, w') = and_then (result, w) (λ v. example_requests v now1 now2 now3) in
      (last, w', calls)

  -- The client is dropped where `main` returns.
  unfoldable pub dropped :
      List Call → Option (MainResult × World Chan) → Option (MainResult × World Chan × List Call)
  unfolding drop_client
  dropped calls none = none
  dropped calls (some (r, w)) = some (r, record w { client = drop_client w.client }, calls)

  -- `client.disconnect().await?`
  unfoldable pub disconnected : Option (World Chan) → Option (MainResult × World Chan)
  disconnected none = none
  disconnected (some w) = some (ok tt, w)

  -- `ctrl_c().await?` and `client.disconnect().await?`, where `ctrl_c` may answer an error; `none` waits
  -- for room in the channel.
  unfoldable pub example_end :
      World Chan → Option IoErrorKind → Reading → Option (MainResult × World Chan)
  unfolding disconnected disconnect_client
  example_end w (some e) now = some (err (MainError.boxed_io e), w)
  example_end w none now = disconnected (disconnect_client mpsc w now)

  -- What `main` does behind the requests: an error ends it, else it waits, while the spawned tasks do
  -- `waited`.
  unfoldable pub example_wait :
      MainResult
      → World Chan
      → (World Chan → World Chan)
      → Option IoErrorKind
      → Reading
      → Option (MainResult × World Chan)
  unfolding example_end
  example_wait (err e) w waited ctrl_c now = some (err e, w)
  example_wait (ok u) w waited ctrl_c now = example_end (waited w) ctrl_c now

  -- `main`, with what each reading of the clock gives; the calls are those of the connect callbacks.
  unfoldable pub example_main :
      Dialled
      → Option IoErrorKind
      → (World Chan → World Chan)
      → Reading
      → Reading
      → Reading
      → Reading
      → Reading
      → Option (MainResult × World Chan × List Call)
  unfolding example_session example_wait dropped
  example_main dialled ctrl_c waited now0 now1 now2 now3 now4 =
      let (result, w, calls) = example_session dialled now0 now1 now2 now3 in
      dropped calls (example_wait result w waited ctrl_c now4)
