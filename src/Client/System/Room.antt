-- ===== src/Client/System/Room.antt =====
-- The room in the channels, in every reachable state: a channel is open while its write task runs, and
-- its 100 places hold what waits (internals.rs).
use mip_clients.Common.{
  ℕ, suc, ◌+◌, ◌≡◌, ◌<◌, ◌⊎◌, inl, inr, refl, ap, ◌∙◌, Bool, true, false, List, [], ◌∷◌, some,
  length, length-append, get_elem?, Bool-cases, arith,
}
use mip_clients.Protocol.{Bitflags}
use mip_clients.Client.Types.{MipClientOptions}
use mip_clients.Client.Sending.{ClientCommand, send, disconnect, Mpsc, Receiver}
use mip_clients.Client.Sending.Queueing.{try_send-accepted}
use mip_clients.Client.Tasks.{Writer, WriteResult, wrote_all, wrote_part, write_command}
use mip_clients.Client.System.State.{System}
use mip_clients.Client.System.{Reach, write_task}
use mip_clients.Client.System.Channels.{IsKept, Reach-Holds}
use mip_clients.Client.System.WriteTurns.{keeps, write_task-next}

module _ {Chan : Type 0} {mpsc : Mpsc Chan} (receiver : Receiver mpsc) where
  pub record Fits (t : Writer) (c : Chan) : Type 0 where
    pub opened : t.active ≡ true → mpsc.is_closed c ≡ false
    pub closed : t.active ≡ false → mpsc.is_closed c ≡ true
    pub full : t.active ≡ true → length (mpsc.queued c) + mpsc.capacity c ≡ 100

  Fits-ended : (t : Writer) (c : Chan) → t.active ≡ false → Fits t (receiver.drop_receiver c)
  Fits-ended t c e = record {
    opened = λ a. cc;
    closed = λ a. receiver.is_closed-drop_receiver c;
    full = λ a. let impossible : ⊥ = cc in absurd impossible;
  }

  Fits-accepts :
      (t : Writer) (c d : Chan) (x : ClientCommand)
      → Fits t c
      → mpsc.try_send c x ≡ some d
      → Fits t d
  Fits-accepts t c d x h e =
      let (q, k, o, o') = try_send-accepted mpsc c d x e in
      record {
        opened = λ a. o';
        closed = λ a. cc (h.closed a);
        full = λ a. omega (arith, h.full a, ap length q, length-append (mpsc.queued c) (x ∷ []), k);
      }

  Fits-takes :
      (t : Writer) (c d : Chan) (x : ClientCommand) (xs : List ClientCommand) (r : WriteResult)
      → Fits t c
      → t.active ≡ true
      → mpsc.queued c ≡ x ∷ xs
      → mpsc.queued d ≡ xs
      → mpsc.capacity d ≡ suc (mpsc.capacity c)
      → mpsc.is_closed d ≡ mpsc.is_closed c
      → Fits (write_command receiver t d x r).0 (write_command receiver t d x r).1
  unfolding write_command
  Fits-takes t c d (send b) xs wrote_all h a q q' k o = record {
    opened = λ a. o ∙ h.opened a;
    closed = λ e. cc;
    full = λ a. omega (arith, h.full a, ap length q, ap length q');
  }
  Fits-takes t c d (send b) xs (wrote_part n) h a q q' k o = Fits-ended _ d refl
  Fits-takes t c d disconnect xs r h a q q' k o = Fits-ended _ d refl

  Fits-IsKept : IsKept receiver Fits
  Fits-IsKept = record {
    fresh = record {
      opened = λ a. mpsc.is_closed-channel 100;
      closed = λ a. cc;
      full = λ a. omega (arith, ap length (mpsc.queued-channel 100), mpsc.capacity-channel 100);
    };
    accepts = Fits-accepts;
    writes = λ senders t c r h.
        keeps receiver Fits t c r h (λ a q. Fits-ended (record t { active = false }) c refl)
          (λ x xs d a e q q' k o. Fits-takes t c d x xs r h a q q' k o) senders;
  }

  pub Reach-Fits :
      (bitflags : Bitflags) {options : MipClientOptions} {s : System Chan}
      → Reach bitflags mpsc receiver options s
      → (i : ℕ) (c : Chan) → get_elem? s.world.channels i ≡ some c
      → Fits (s.writers i) c
  Reach-Fits bitflags r = Reach-Holds bitflags mpsc receiver Fits-IsKept r

  -- A command can be sent on the channel without waiting.
  abbrev pub Ready : Chan → Type 0
  Ready c = (mpsc.is_closed c ≡ true) ⊎ (0 < mpsc.capacity c)

  Ready-takes :
      (t : Writer) (d : Chan) (x : ClientCommand) (n : ℕ)
      → mpsc.capacity d ≡ suc n
      → Ready (write_command receiver t d x wrote_all).1
  unfolding write_command
  Ready-takes t d (send b) n k = inr (omega arith)
  Ready-takes t d disconnect n k = inl (receiver.is_closed-drop_receiver d)

  -- A channel without room has a command for its write task, and has room, or is closed, when the task
  -- has taken it.
  pub Ready-write_task :
      (senders : Bool) (t : Writer) (c : Chan)
      → Fits t c
      → Ready c ⊎ Ready (write_task receiver senders t c wrote_all).1
  Ready-write_task senders t c h = elim (Bool-cases t.active) [
    | inr ended ↦ inl (inl (h.closed ended))
    | inl a ↦ waits senders a (mpsc.queued c) refl
  ]
    where
      waits :
          (senders : Bool)
          → t.active ≡ true
          → (q : List ClientCommand) → mpsc.queued c ≡ q
          → Ready c ⊎ Ready (write_task receiver senders t c wrote_all).1
      waits senders a [] q = inl (inr (omega (arith, h.full a, ap length q)))
      waits senders a (x ∷ xs) q =
          let (d, e, _, k, _) = receiver.recv-queued c x xs q in
          inr (
            rw (write_task-next receiver senders t c d x wrote_all a e)
              (Ready-takes t d x (mpsc.capacity c) k))
