-- ===== src/Client/System/Accepted.antt =====
-- What the sending operations do to the channels: each has a command accepted by one channel, or
-- leaves them alone (mod.rs, internals.rs).
use mip_clients.Common.{
  ℕ, ◌≡◌, ◌⊎◌, inl, inr, refl, sym, ap, ◌∙◌, Bool, true, false, Bytes, List, Option, none, some,
  get_elem?, set, set_same, arith, ok, err,
}
use std.Path.{subst}
use mip_clients.Protocol.{FrameType, FrameFlags, no_flags}
use mip_clients.Client.Types.{MipResult}
use mip_clients.Client.Sending.{
  ClientCommand, send, Mpsc, Reading, send_frame, queue_frame, send_await, generate_msg_id,
  build_frame,
}
use mip_clients.Client.State.{MipClient}
use mip_clients.Client.Api.{World, tx_channel, store_channel, send_raw_frame}
use mip_clients.Client.Tasks.{PingPhase, ticking, pinging, stopped, ping_step, ping_sent}
use mip_clients.Client.Connection.{
  send_to, send_found, put_back, connect_hello, connect_hello_on, hello_sent,
}

module _ {Chan : Type 0} (mpsc : Mpsc Chan) where
  -- A step accepts one command on one channel, or leaves the channels alone.
  pub data Accepted (cs cs' : List Chan) : Type 0 where
    same : cs' ≡ cs → Accepted cs cs'
    accepted :
        (k : ℕ) (c d : Chan) (x : ClientCommand)
        → get_elem? cs k ≡ some c
        → mpsc.try_send c x ≡ some d
        → cs' ≡ set cs k d
        → Accepted cs cs'

  Accepted-queue_frame :
      (cs : List Chan) (i : ℕ) (c : Chan) (id counter : ℕ) (x : ClientCommand) (o : Option Chan)
      → get_elem? cs i ≡ some c
      → mpsc.try_send c x ≡ o
      → Accepted cs (store_channel cs (some i) (queue_frame mpsc c id counter o).tx)
  unfolding queue_frame
  Accepted-queue_frame cs i c id counter x none f e = same (set_same cs i c f)
  Accepted-queue_frame cs i c id counter x (some d) f e = accepted i c d x f e refl

  Accepted-send_frame :
      (cs : List Chan) (i : ℕ) (o : Option Chan) (on : Bool) (counter : ℕ) (now : Reading)
      (t : FrameType) (p : Bytes) (f : FrameFlags)
      → get_elem? cs i ≡ o
      → Accepted cs (store_channel cs (some i) (send_frame mpsc o on counter now t p f).tx)
  unfolding send_frame
  Accepted-send_frame cs i none on counter now t p f e = same refl
  Accepted-send_frame cs i (some c) false counter now t p f e = same (set_same cs i c e)
  Accepted-send_frame cs i (some c) true counter now t p f e =
      Accepted-queue_frame cs i c (generate_msg_id counter now).0 (generate_msg_id counter now).1
        (send (build_frame t p f (generate_msg_id counter now).0)) _ e refl

  Accepted-on :
      (tx : Option ℕ) (cs : List Chan) (on : Bool) (counter : ℕ) (now : Reading) (t : FrameType)
      (p : Bytes) (f : FrameFlags)
      → Accepted cs
          (store_channel cs tx (send_frame mpsc (tx_channel cs tx) on counter now t p f).tx)
  Accepted-on none cs on counter now t p f = unfold send_frame in same refl
  Accepted-on (some i) cs on counter now t p f =
      Accepted-send_frame cs i (get_elem? cs i) on counter now t p f refl

  pub Accepted-send_raw_frame :
      (w : World Chan) (now : Reading) (t : FrameType) (p : Bytes) (f : FrameFlags)
      → Accepted w.channels (send_raw_frame mpsc w now t p f).1.channels
  unfolding send_raw_frame
  Accepted-send_raw_frame w now t p f =
      Accepted-on w.client.command_tx w.channels w.client.connected w.client.msg_id_counter now t p
        f

  hello_sent-channels :
      (r : MipResult ℕ) (w : World Chan) → (hello_sent mpsc r w).1.channels ≡ w.channels
  unfolding hello_sent
  hello_sent-channels (ok id) w = refl
  hello_sent-channels (err e) w = refl

  Accepted-hello_on :
      (tx : Option ℕ) (w : World Chan) (now : Reading)
      → Accepted w.channels (connect_hello_on mpsc tx w now).1.channels
  unfolding connect_hello_on
  Accepted-hello_on none w now = same refl
  Accepted-hello_on (some i) w now =
      let out = send_raw_frame mpsc w now FrameType.hello w.client.options.client_id no_flags in
      subst (Accepted w.channels) (sym (hello_sent-channels out.0 out.1))
        (Accepted-send_raw_frame w now FrameType.hello w.client.options.client_id no_flags)

  pub Accepted-connect_hello :
      (w : World Chan) (now : Reading) → Accepted w.channels (connect_hello mpsc w now).1.channels
  unfolding connect_hello
  Accepted-connect_hello w now = Accepted-hello_on w.client.command_tx w now

  -- What `send` on a channel leaves there.
  send_await_cases :
      (c d : Chan) (x : ClientCommand)
      → send_await mpsc c x ≡ some d
      → (c ≡ d) ⊎ (mpsc.try_send c x ≡ some d)
  unfolding send_await
  send_await_cases c d x e = ground arith

  Accepted-put_back :
      (w : World Chan) (i : ℕ) (c : Chan) (x : ClientCommand) (o : Option Chan) (v : World Chan)
      → get_elem? w.channels i ≡ some c
      → w.client.command_tx ≡ some i
      → send_await mpsc c x ≡ o
      → put_back mpsc w o ≡ some v
      → Accepted w.channels v.channels
  unfolding put_back
  Accepted-put_back w i c x none v f tx e p = cc
  Accepted-put_back w i c x (some d) v f tx e p =
      let q : v.channels ≡ set w.channels i d =
        cc (ap (λ t. store_channel w.channels t (some d)) tx) in
      elim (send_await_cases c d x e) [
        | inl r ↦ same (q ∙ ap (set w.channels i) (sym r) ∙ set_same w.channels i c f)
        | inr r ↦ accepted i c d x f r q
      ]

  Accepted-send_found :
      (w : World Chan) (tx : Option ℕ) (o : Option Chan) (x : ClientCommand) (v : World Chan)
      → w.client.command_tx ≡ tx
      → tx_channel w.channels tx ≡ o
      → send_found mpsc w o x ≡ some v
      → Accepted w.channels v.channels
  unfolding send_found
  Accepted-send_found w tx none x v t f e = same (cc)
  Accepted-send_found w none (some c) x v t f e = cc
  Accepted-send_found w (some i) (some c) x v t f e =
      Accepted-put_back w i c x (send_await mpsc c x) v f t refl e

  pub Accepted-send_to :
      (w : World Chan) (x : ClientCommand) (v : World Chan)
      → send_to mpsc w x ≡ some v
      → Accepted w.channels v.channels
  unfolding send_to
  Accepted-send_to w x v e =
      Accepted-send_found w w.client.command_tx (tx_channel w.channels w.client.command_tx) x v refl
        refl e

  ping_sent_cases :
      (c : MipClient) (chan : Chan) (frame : Bytes) (o : Option Chan)
      → send_await mpsc chan (send frame) ≡ o
      → (chan ≡ (ping_sent mpsc c chan frame o).2)
        ⊎ (mpsc.try_send chan (send frame) ≡ some (ping_sent mpsc c chan frame o).2)
  unfolding ping_sent
  ping_sent_cases c chan frame none e = inl refl
  ping_sent_cases c chan frame (some d) e = send_await_cases chan d (send frame) e

  -- A step of the ping task sends one command, or leaves the channel alone.
  pub ping_step_cases :
      (phase : PingPhase) (c : MipClient) (chan : Chan) (now : Reading)
      → let d = (ping_step mpsc (phase, c, chan) now).2 in
        (chan ≡ d) ⊎ ((x : ClientCommand) × (mpsc.try_send chan x ≡ some d))
  unfolding ping_step
  ping_step_cases ticking c chan now = inl refl
  ping_step_cases stopped c chan now = inl refl
  ping_step_cases (pinging frame) c chan now =
      elim (ping_sent_cases c chan frame (send_await mpsc chan (send frame)) refl) [
        | inl e ↦ inl e
        | inr e ↦ inr (send frame, e)
      ]
