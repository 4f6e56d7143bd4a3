-- ===== src/Client/System/Calmer.antt =====
-- What the steps do to the client's fields, but for those of `connect` and `disconnect` that set them
-- (mod.rs, internals.rs).
use mip_clients.Common.{
  ℕ, ◌≡◌, refl, ap, ◌∙◌, true, Bytes, List, ◌++◌, Option, none, some, length, length-set, arith, ok,
  err,
}
use mip_clients.Protocol.{Bitflags, FrameType, no_flags}
use mip_clients.Client.Types.{MipResult}
use mip_clients.Client.Events.{Call}
use mip_clients.Client.Sending.{ClientCommand, Mpsc, Reading}
use mip_clients.Client.State.{MipClient}
use mip_clients.Client.Api.{World, send_raw_frame}
use mip_clients.Client.Tasks.{
  ReadPhase, ReadResult, PingPhase, ticking, pinging, stopped, read_step, received, ping_step,
  ping_sent,
}
use mip_clients.Client.Stream.{handle_data}
use mip_clients.Client.Connection.{
  send_to, send_found, put_back, connect_hello, connect_hello_on, hello_sent,
}
use mip_clients.Client.System.Accepted.{Accepted, same, accepted}

-- A client whose sender is the same, that is connected or running only if it was, and has the same
-- options and callbacks.
pub record Calmer (c c' : MipClient) : Type 0 where
  pub tx : c'.command_tx ≡ c.command_tx
  pub connected : c'.connected ≡ true → c.connected ≡ true
  pub running : c'.running ≡ true → c.running ≡ true
  pub options : c'.options ≡ c.options
  pub callbacks : c'.callbacks ≡ c.callbacks

pub Calmer-refl : (c : MipClient) → Calmer c c
Calmer-refl c = record {
  tx = refl;
  connected = λ e. e;
  running = λ e. e;
  options = refl;
  callbacks = refl;
}

pub Calmer-counter : (c : MipClient) (n : ℕ) → Calmer c (record c { msg_id_counter = n })
Calmer-counter c n = record {
  tx = refl;
  connected = λ e. e;
  running = λ e. e;
  options = refl;
  callbacks = refl;
}

Calmer-received : (c : MipClient) (o : Option (Bytes × List Call)) → Calmer c (received c o).1
unfolding received
Calmer-received c none = Calmer-refl c
Calmer-received c (some x) = Calmer-refl c

-- The read task takes `connected` back, and counts its attempt.
pub Calmer-read_step :
    (bitflags : Bitflags) (c : MipClient) (phase : ReadPhase) (r : ReadResult)
    → Calmer c (read_step bitflags c phase r).1
unfolding read_step
Calmer-read_step bitflags c (ReadPhase.checking b) r = Calmer-refl c
Calmer-read_step bitflags c (ReadPhase.reading b) ReadResult.eof = Calmer-refl c
Calmer-read_step bitflags c (ReadPhase.reading b) (ReadResult.got chunk) =
    Calmer-received c (handle_data bitflags c.callbacks (b ++ chunk))
Calmer-read_step bitflags c (ReadPhase.reading b) (ReadResult.failed k) = Calmer-refl c
Calmer-read_step bitflags c ReadPhase.closing r = record {
  tx = refl;
  connected = λ e. cc;
  running = λ e. e;
  options = refl;
  callbacks = refl;
}
Calmer-read_step bitflags c ReadPhase.deciding r = record {
  tx = ground arith;
  connected = λ e. ground arith;
  running = λ e. ground arith;
  options = ground arith;
  callbacks = ground arith;
}
Calmer-read_step bitflags c (ReadPhase.sleeping d) r = Calmer-refl c
Calmer-read_step bitflags c ReadPhase.ended r = Calmer-refl c

module _ {Chan : Type 0} (mpsc : Mpsc Chan) where
  Calmer-ping_sent :
      (c : MipClient) (chan : Chan) (frame : Bytes) (o : Option Chan)
      → Calmer c (ping_sent mpsc c chan frame o).1
  unfolding ping_sent
  Calmer-ping_sent c chan frame none = Calmer-refl c
  Calmer-ping_sent c chan frame (some d) = Calmer-refl c

  pub Calmer-ping_step :
      (phase : PingPhase) (c : MipClient) (chan : Chan) (now : Reading)
      → Calmer c (ping_step mpsc (phase, c, chan) now).1
  unfolding ping_step
  Calmer-ping_step ticking c chan now = record {
    tx = ground arith;
    connected = λ e. ground arith;
    running = λ e. ground arith;
    options = ground arith;
    callbacks = ground arith;
  }
  Calmer-ping_step (pinging frame) c chan now = Calmer-ping_sent c chan frame _
  Calmer-ping_step stopped c chan now = Calmer-refl c

  Calmer-hello_sent :
      (r : MipResult ℕ) (w : World Chan) → Calmer w.client (hello_sent mpsc r w).1.client
  unfolding hello_sent
  Calmer-hello_sent (ok id) w = record {
    tx = refl;
    connected = λ e. e;
    running = λ e. e;
    options = refl;
    callbacks = refl;
  }
  Calmer-hello_sent (err e) w = record {
    tx = refl;
    connected = λ e. cc;
    running = λ e. cc;
    options = refl;
    callbacks = refl;
  }

  Calmer-hello_on :
      (tx : Option ℕ) (w : World Chan) (now : Reading)
      → Calmer w.client (connect_hello_on mpsc tx w now).1.client
  unfolding connect_hello_on send_raw_frame
  Calmer-hello_on none w now = Calmer-refl w.client
  Calmer-hello_on (some i) w now =
      let out = send_raw_frame mpsc w now FrameType.hello w.client.options.client_id no_flags in
      let k = Calmer-hello_sent out.0 out.1 in
      record {
        tx = k.tx;
        connected = k.connected;
        running = k.running;
        options = k.options;
        callbacks = k.callbacks;
      }

  pub Calmer-connect_hello :
      (w : World Chan) (now : Reading) → Calmer w.client (connect_hello mpsc w now).1.client
  unfolding connect_hello
  Calmer-connect_hello w now = Calmer-hello_on w.client.command_tx w now

  put_back-client :
      (w v : World Chan) (o : Option Chan) → put_back mpsc w o ≡ some v → v.client ≡ w.client
  unfolding put_back
  put_back-client w v none e = cc
  put_back-client w v (some d) e = cc

  send_found-client :
      (w v : World Chan) (o : Option Chan) (x : ClientCommand)
      → send_found mpsc w o x ≡ some v
      → v.client ≡ w.client
  unfolding send_found
  send_found-client w v none x e = cc
  send_found-client w v (some c) x e = put_back-client w v _ e

  pub send_to-client :
      (w v : World Chan) (x : ClientCommand) → send_to mpsc w x ≡ some v → v.client ≡ w.client
  unfolding send_to
  send_to-client w v x e = send_found-client w v _ x e

  pub length-Accepted : {cs cs' : List Chan} → Accepted mpsc cs cs' → length cs' ≡ length cs
  length-Accepted (same e) = ap length e
  length-Accepted {cs} (accepted k c d x f t e) = ap length e ∙ length-set cs k d
