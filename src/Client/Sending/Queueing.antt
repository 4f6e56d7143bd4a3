-- ===== src/Client/Sending/Queueing.antt =====
-- When `send_frame` succeeds, and what it queues (internals.rs).
use mip_clients.Common.{
  ℕ, suc, ◌≡◌, ◌<◌, ◌⊎◌, inl, inr, refl, ap, Bool, true, false, Bytes, [], ◌∷◌, ◌++◌, Option, none,
  some, ok, err, arith, Bool-cases, ◌↔◌,
}
use mip_clients.Protocol.{FrameType, FrameFlags}
use mip_clients.Client.Types.{MipError}
use mip_clients.Client.Sending.{
  send_await, ClientCommand, send, Mpsc, Reading, generate_msg_id, build_frame, send_frame,
}

module _ {Chan : Type 0} (mpsc : Mpsc Chan) where
  -- A sender that is there, on a channel that can take a command.
  abbrev pub IsReady : Option Chan → Bool → Type 0
  IsReady none connected = ⊥
  IsReady (some c) connected =
      (connected ≡ true) × (mpsc.is_closed c ≡ false) × (0 < mpsc.capacity c)

  -- On an open channel `send` does what `try_send` does.
  pub send_await-open :
      (c : Chan) (x : ClientCommand)
      → mpsc.is_closed c ≡ false
      → send_await mpsc c x ≡ mpsc.try_send c x
  unfolding send_await
  send_await-open c x e = rw e

  -- A command is accepted only by an open channel with room, and stands last there.
  pub try_send-accepted :
      (c d : Chan) (x : ClientCommand)
      → mpsc.try_send c x ≡ some d
      → (mpsc.queued d ≡ mpsc.queued c ++ (x ∷ []))
        × (suc (mpsc.capacity d) ≡ mpsc.capacity c)
        × (mpsc.is_closed c ≡ false)
        × (mpsc.is_closed d ≡ false)
  try_send-accepted c d x e = elim (Bool-cases (mpsc.is_closed c)) [
    | inl closed ↦ let impossible : ⊥ = cc (mpsc.try_send-none c x closed) in absurd impossible
    | inr opened ↦
        let room : 0 < mpsc.capacity c = ground (arith, mpsc.try_send-full c x) in
        let (d', e', q, k, f) = mpsc.try_send-some c x opened room in
        let same : d' ≡ d = cc in rw (← same) (q, k, opened, f)
  ]

  module _ (c : Chan) (connected : Bool) (counter : ℕ) (now : Reading) (t : FrameType) (p : Bytes)
      (f : FrameFlags) where
    -- While connected, on an open channel with capacity, `send_frame` returns a fresh id and queues
    -- the frame with that id behind what is queued; it takes one place and one count.
    pub send_frame-ready :
        IsReady (some c) connected
        → let id = (generate_msg_id counter now).0 in
          (d : Chan) × (send_frame mpsc (some c) connected counter now t p f
            ≡ record { result = ok id; tx = some d; counter = (generate_msg_id counter now).1 })
          × (mpsc.queued d ≡ mpsc.queued c ++ (send (build_frame t p f id) ∷ []))
          × (suc (mpsc.capacity d) ≡ mpsc.capacity c)
          × (mpsc.is_closed d ≡ false)
    unfolding send_frame
    send_frame-ready r =
        let frame = build_frame t p f (generate_msg_id counter now).0 in
        let (d, e, q, n, o) = mpsc.try_send-some c (send frame) r.1 r.2 in (d, rw (r.0, e), q, n, o)

    not_ready :
        ¬ IsReady (some c) connected
        → (x : ClientCommand) → (connected ≡ false) ⊎ (mpsc.try_send c x ≡ none)
    not_ready n x = elim (Bool-cases connected) [
      | inr off ↦ inl off
      | inl on ↦ elim (Bool-cases (mpsc.is_closed c)) [
        | inl closed ↦ inr (mpsc.try_send-none c x closed)
        | inr opened ↦ inr (mpsc.try_send-full c x (full on opened))
      ]
    ]
      where
        full : connected ≡ true → mpsc.is_closed c ≡ false → mpsc.capacity c ≡ 0
        full on opened = ground (arith, λ (h : 0 < mpsc.capacity c). n (on, opened, h))

    pub send_frame-not_ready :
        ¬ IsReady (some c) connected
        → let s = send_frame mpsc (some c) connected counter now t p f in
          (s.result ≡ err MipError.not_connected) × (s.tx ≡ some c)
    unfolding send_frame
    send_frame-not_ready n =
        elim (not_ready n (send (build_frame t p f (generate_msg_id counter now).0))) [
          | inl off ↦ ground arith
          | inr e ↦ ground arith
        ]

    IsReady-cases : IsReady (some c) connected ⊎ (¬ IsReady (some c) connected)
    IsReady-cases = ground arith

    IsReady-of_ok :
        (id : ℕ)
        → (send_frame mpsc (some c) connected counter now t p f).result ≡ ok id
        → IsReady (some c) connected
    IsReady-of_ok id e = elim IsReady-cases [
      | inl r ↦ r
      | inr n ↦ cc (e, (send_frame-not_ready n).0)
    ]

  -- Otherwise it answers `NotConnected`, and the channel is as it was.
  pub send_frame-refused :
      (tx : Option Chan) (connected : Bool) (counter : ℕ) (now : Reading) (t : FrameType)
      (p : Bytes) (f : FrameFlags)
      → ¬ IsReady tx connected
      → let s = send_frame mpsc tx connected counter now t p f in
        (s.result ≡ err MipError.not_connected) × (s.tx ≡ tx)
  send_frame-refused none connected counter now t p f n = unfold send_frame in (refl, refl)
  send_frame-refused (some c) connected counter now t p f n =
      send_frame-not_ready c connected counter now t p f n

  -- `send_frame` succeeds exactly when there is a sender, the client is connected, and the channel is
  -- open and has capacity.
  pub send_frame-ok_iff :
      (tx : Option Chan) (connected : Bool) (counter : ℕ) (now : Reading) (t : FrameType)
      (p : Bytes) (f : FrameFlags)
      → ((id : ℕ) × ((send_frame mpsc tx connected counter now t p f).result ≡ ok id))
        ↔ IsReady tx connected
  send_frame-ok_iff none connected counter now t p f =
      (λ h. unfold send_frame in cc (h.1), λ r. absurd r)
  send_frame-ok_iff (some c) connected counter now t p f = (
    λ h. IsReady-of_ok c connected counter now t p f h.0 h.1,
    λ r.
        let (d, e, _, _, _) = send_frame-ready c connected counter now t p f r in
        ((generate_msg_id counter now).0, ap (λ s. s.result) e),
  )
