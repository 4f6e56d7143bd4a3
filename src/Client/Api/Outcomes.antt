-- ===== src/Client/Api/Outcomes.antt =====
-- What the sending methods return and leave behind (mod.rs).
use mip_clients.Common.{
  ℕ, ◌≡◌, refl, Bool, Bytes, List, [], ◌∷◌, ◌++◌, Option, none, some, ok, err, get_elem?,
  get_elem?-set_self, Option-cases, inl, inr,
}
use mip_clients.Protocol.{FrameType, FrameFlags}
use mip_clients.Client.Types.{MipError}
use mip_clients.Client.Sending.{ClientCommand, send, Mpsc, Reading, generate_msg_id, build_frame}
use mip_clients.Client.Sending.Queueing.{IsReady, send_frame-ready, send_frame-refused}
use mip_clients.Client.Api.{World, tx_channel, store_channel, send_raw_frame}

module _ {Chan : Type 0} (mpsc : Mpsc Chan) where
  -- The client is connected, and the channel of its sender is open and has capacity.
  abbrev pub CanSend : World Chan → Type 0
  CanSend w = IsReady mpsc (tx_channel w.channels w.client.command_tx) w.client.connected

  -- The commands that wait in the channel of the client's sender.
  abbrev queue_of : Option Chan → List ClientCommand
  queue_of none = []
  queue_of (some c) = mpsc.queued c

  abbrev pub pending : World Chan → List ClientCommand
  pending w = queue_of (tx_channel w.channels w.client.command_tx)

  IsReady-channel :
      (o : Option Chan) (connected : Bool)
      → IsReady mpsc o connected
      → (c : Chan) × (o ≡ some c) × IsReady mpsc (some c) connected
  IsReady-channel none connected r = absurd r
  IsReady-channel (some c) connected r = (c, refl, r)

  pub stored :
      (channels : List Chan) (tx : Option ℕ) (c d : Chan)
      → tx_channel channels tx ≡ some c
      → tx_channel (store_channel channels tx (some d)) tx ≡ some d
  stored channels none c d e = cc
  stored channels (some i) c d e = get_elem?-set_self channels i c d e

  restored :
      (channels : List Chan) (tx : Option ℕ)
      → tx_channel (store_channel channels tx (tx_channel channels tx)) tx ≡ tx_channel channels tx
  restored channels none = refl
  restored channels (some i) = elim (Option-cases (get_elem? channels i)) [
    | inl e ↦ rw (e, e)
    | inr (c, e) ↦ rw (e, get_elem?-set_self channels i c c e)
  ]

  module _ (w : World Chan) (now : Reading) (t : FrameType) (p : Bytes) (f : FrameFlags) where
    -- A client that can send returns a fresh id; the frame with that id is then behind what was
    -- pending, and the client has changed in its counter only.
    pub send_raw_frame-CanSend :
        CanSend w
        → let id = (generate_msg_id w.client.msg_id_counter now).0 in
          let out = send_raw_frame mpsc w now t p f in
          (out.0 ≡ ok id)
          × (pending out.1 ≡ pending w ++ (send (build_frame t p f id) ∷ []))
          × (out.1.client ≡ record w.client {
            msg_id_counter = (generate_msg_id w.client.msg_id_counter now).1;
          })
    unfolding send_raw_frame
    send_raw_frame-CanSend r =
        let (c, found, rc) =
          IsReady-channel (tx_channel w.channels w.client.command_tx) w.client.connected r in
        let (d, e, q, _, _) =
          send_frame-ready mpsc c w.client.connected w.client.msg_id_counter now t p f rc in
        rw (found, e) (refl, rw (stored w.channels w.client.command_tx c d found) q, refl)

    -- A client that cannot send answers `NotConnected`, and nothing is queued.
    pub send_raw_frame-refused :
        ¬ CanSend w
        → let out = send_raw_frame mpsc w now t p f in
          (out.0 ≡ err MipError.not_connected) × (pending out.1 ≡ pending w)
    unfolding send_raw_frame
    send_raw_frame-refused n =
        let (e, same) =
          send_frame-refused mpsc (tx_channel w.channels w.client.command_tx) w.client.connected
            w.client.msg_id_counter now t p f n in
        (e, rw (same, restored w.channels w.client.command_tx) refl)
