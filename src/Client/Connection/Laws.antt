-- ===== src/Client/Connection/Laws.antt =====
-- What `connect` and `disconnect` leave behind (mod.rs).
use mip_clients.Common.{
  ℕ, ◌≡◌, refl, ap, ◌∙◌, true, false, Text, List, [], ◌∷◌, ◌++◌, map, none, some, ok, err, length,
  get_elem?, arith,
}
use mip_clients.Protocol.{FrameType, no_flags}
use mip_clients.Client.Types.{MipError}
use mip_clients.Client.Events.{Call}
use mip_clients.Client.Sending.{send, Mpsc, Reading, generate_msg_id, build_frame}
use mip_clients.Client.Api.{World, tx_channel, send_raw_frame}
use mip_clients.Client.Api.Outcomes.{CanSend, pending, send_raw_frame-CanSend}
use mip_clients.Client.Connection.{
  decimal, connect_open, connect_hello, connect_hello_on, hello_sent, connect,
}

get_elem?-length_append {ℓ} :
    {A : Type ℓ} (xs : List A) (a : A) → get_elem? (xs ++ (a ∷ [])) (length xs) ≡ some a
get_elem?-length_append [] a = refl
get_elem?-length_append (x ∷ xs) a = get_elem?-length_append xs a

module _ {Chan : Type 0} (mpsc : Mpsc Chan) where
  -- The client that `connect` starts from, behind its first test.
  abbrev pub started : World Chan → World Chan
  started w = record w { client = record w.client { running = true } }

  abbrev pub opened : World Chan → World Chan
  opened w = (connect_open mpsc (started w)).0

  pub opened_channel :
      (w : World Chan)
      → tx_channel (opened w).channels (opened w).client.command_tx ≡ some (mpsc.channel 100)
  unfolding connect_open
  opened_channel w = get_elem?-length_append w.channels (mpsc.channel 100)

  opened-CanSend : (w : World Chan) → CanSend mpsc (opened w)
  opened-CanSend w = rw (opened_channel w) (
    unfold connect_open in refl,
    mpsc.is_closed-channel 100,
    rw (mpsc.capacity-channel 100) (omega arith),
  )

  opened-pending : (w : World Chan) → pending mpsc (opened w) ≡ []
  opened-pending w = rw (opened_channel w) (mpsc.queued-channel 100)

  -- What a client that has connected looks like, with the id of its HELLO.
  pub record Connected (w w' : World Chan) (now : Reading) (id : ℕ) : Type 0 where
    pub connected : w'.client.connected ≡ true
    pub running : w'.client.running ≡ true
    pub attempts : w'.client.reconnect_attempts ≡ 0
    pub renamed : w'.client.client_id ≡ decimal id
    pub greeted :
        pending mpsc w'
        ≡ send (build_frame FrameType.hello w.client.options.client_id no_flags id) ∷ []

  pub connect_parts :
      (w : World Chan) (now : Reading)
      → w.client.connected ≡ false
      → connect mpsc w none now ≡ (
        (connect_hello mpsc (opened w) now).0,
        (connect_hello mpsc (opened w) now).1,
        map Call.connect w.client.callbacks.on_connect,
      )
  unfolding connect
  connect_parts w now off = rw off

  -- HELLO on a client that can send it.
  pub hello_ok :
      (v : World Chan) (now : Reading) (tx id : ℕ)
      → v.client.command_tx ≡ some tx
      → (send_raw_frame mpsc v now FrameType.hello v.client.options.client_id no_flags).0 ≡ ok id
      → let out = send_raw_frame mpsc v now FrameType.hello v.client.options.client_id no_flags in
        connect_hello mpsc v now
        ≡ (ok tt, record out.1 { client = record out.1.client { client_id = decimal id } })
  unfolding connect_hello connect_hello_on
  hello_ok v now tx id h e =
      let out = send_raw_frame mpsc v now FrameType.hello v.client.options.client_id no_flags in
      ap (λ o. connect_hello_on mpsc o v now) h ∙ ap (λ r. hello_sent mpsc r out.1) e

  -- A client that is not connected and gets a stream is connected, over a new channel whose only
  -- command is HELLO with the configured client id; the connect callbacks were called, the attempts are
  -- counted from 0, and its `client_id` is now the decimal text of the id of HELLO.
  pub connect-Connected :
      (w : World Chan) (now : Reading)
      → w.client.connected ≡ false
      → let out = connect mpsc w none now in
        (out.0 ≡ ok tt)
        × Connected w out.1 now (generate_msg_id w.client.msg_id_counter now).0
        × (out.2 ≡ map Call.connect w.client.callbacks.on_connect)
  connect-Connected w now off =
      let v = opened w in
      let id = (generate_msg_id w.client.msg_id_counter now).0 in
      let out = send_raw_frame mpsc v now FrameType.hello v.client.options.client_id no_flags in
      let (e, q, ce) =
        send_raw_frame-CanSend mpsc v now FrameType.hello v.client.options.client_id no_flags
          (opened-CanSend w) in
      let hello = send (build_frame FrameType.hello w.client.options.client_id no_flags id) in
      let q' : pending mpsc out.1 ≡ pending mpsc v ++ (hello ∷ []) = unfold connect_open in q in
      let e' : out.0 ≡ ok id = unfold connect_open in e in
      rw
        (
          connect_parts w now off,
          hello_ok v now (length w.channels) id (unfold connect_open in refl) e',
        )
        (
          refl,
          record {
            connected = ap (λ c. c.connected) ce ∙ unfold connect_open in refl;
            running = ap (λ c. c.running) ce ∙ unfold connect_open in refl;
            attempts = ap (λ c. c.reconnect_attempts) ce ∙ unfold connect_open in refl;
            renamed = refl;
            greeted = q' ∙ ap (λ xs. xs ++ (hello ∷ [])) (opened-pending w);
          },
          refl,
        )

  -- Where the dial fails the error is returned with its text and no callback is called; the client is
  -- as it was but for `running`, which stays true.
  pub connect-refused :
      (w : World Chan) (now : Reading) (e : Text)
      → w.client.connected ≡ false
      → connect mpsc w (some e) now ≡ (
        err (MipError.connection e),
        record w { client = record w.client { running = true } },
        [],
      )
  unfolding connect
  connect-refused w now e off = rw off
