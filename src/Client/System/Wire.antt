-- ===== src/Client/System/Wire.antt =====
-- What the write tasks write, of what the channels accepted (internals.rs), however the system runs.
use mip_clients.Common.{
  ℕ, ◌≡◌, refl, sym, ap, ◌∙◌, Bool, true, Bytes, List, [], ◌∷◌, ◌++◌, map, some, get_elem?,
  append-nil, append_assoc, take, drop, take-append-drop,
}
use mip_clients.Protocol.{Bitflags}
use mip_clients.Client.Types.{MipClientOptions}
use mip_clients.Client.Sending.{ClientCommand, send, disconnect, Mpsc, Receiver}
use mip_clients.Client.Sending.Queueing.{try_send-accepted}
use mip_clients.Client.Tasks.{Writer, WriteResult, wrote_all, wrote_part, write_command}
use mip_clients.Client.Tasks.Writes.{concat, bytes_of, bytes_of-append}
use mip_clients.Client.System.State.{System}
use mip_clients.Client.System.{Reach, write_task}
use mip_clients.Client.System.Recorded.{
  Recorded, recorded, recording, record_sent-history, record_taken-history,
}
use mip_clients.Client.System.Channels.{IsKept, Reach-Holds}
use mip_clients.Client.System.WriteTurns.{keeps}

-- What a `Disconnect`, or a frame, behind a list of commands adds to its bytes.
bytes_of-grows :
    (xs : List ClientCommand) (x : ClientCommand)
    → (more : Bytes) × (bytes_of (xs ++ (x ∷ [])) ≡ bytes_of xs ++ more)
bytes_of-grows [] x = (bytes_of (x ∷ []), refl)
bytes_of-grows (send b ∷ xs) x =
    let (more, e) = bytes_of-grows xs x in
    (more, ap (λ ys. b ++ ys) e ∙ sym (append_assoc b (bytes_of xs) more))
bytes_of-grows (disconnect ∷ xs) x = ([], refl)

-- Some bytes are a front of others.
abbrev pub IsFront : Bytes → Bytes → Type 0
IsFront front whole = (rest : Bytes) × (front ++ rest ≡ whole)

concat-append_last : (bs : List Bytes) (b : Bytes) → concat (bs ++ (b ∷ [])) ≡ concat bs ++ b
concat-append_last [] b = append-nil b
concat-append_last (a ∷ bs) b =
    ap (λ x. a ++ x) (concat-append_last bs b) ∙ sym (append_assoc a (concat bs) b)

map-send_last :
    (bs : List Bytes) (b : Bytes) (xs : List ClientCommand)
    → map send bs ++ (send b ∷ xs) ≡ map send (bs ++ (b ∷ [])) ++ xs
map-send_last [] b xs = refl
map-send_last (a ∷ bs) b xs = ap (λ ys. send a ∷ ys) (map-send_last bs b xs)

module _ {Chan : Type 0} {mpsc : Mpsc Chan} (receiver : Receiver mpsc) where
  -- While the task runs, the channel has accepted the frames that are written and then what it holds.
  abbrev Taken : Writer → Recorded Chan → Type 0
  Taken t c =
      (frames : List Bytes) × (c.history ≡ map send frames ++ mpsc.queued c.chan)
      × (t.written ≡ concat frames)

  record Wired (t : Writer) (c : Recorded Chan) : Type 0 where
    front : IsFront t.written (bytes_of c.history)
    taken : t.active ≡ true → Taken t c

  IsFront-Taken :
      (t : Writer) (c : Recorded Chan) → Taken t c → IsFront t.written (bytes_of c.history)
  IsFront-Taken t c (frames, h, w) = (
    bytes_of (mpsc.queued c.chan),
    ap (λ x. x ++ bytes_of (mpsc.queued c.chan)) w
        ∙ sym (ap bytes_of h ∙ bytes_of-append frames (mpsc.queued c.chan)),
  )

  Wired-accepts :
      (t : Writer) (c d : Recorded Chan) (x : ClientCommand)
      → Wired t c
      → (recorded mpsc).try_send c x ≡ some d
      → Wired t d
  Wired-accepts t c d x h e =
      let q = (try_send-accepted (recorded mpsc) c d x e).0 in
      let grown = record_sent-history mpsc c.history x (mpsc.try_send c.chan x) d e in
      let (rest, f) = h.front in
      let (more, g) = bytes_of-grows c.history x in
      record {
        front = (
          rest ++ more,
          sym (append_assoc t.written rest more)
              ∙ ap (λ y. y ++ more) f
              ∙ sym (ap bytes_of grown ∙ g),
        );
        taken = λ a.
            let (frames, l, w) = h.taken a in
            (
              frames,
              grown
                  ∙ ap (λ y. y ++ (x ∷ [])) l
                  ∙ append_assoc (map send frames) (mpsc.queued c.chan) (x ∷ [])
                  ∙ sym (ap (λ y. map send frames ++ y) q),
              w,
            );
      }

  Wired-takes :
      (t : Writer) (c d : Recorded Chan) (x : ClientCommand) (xs : List ClientCommand)
      (r : WriteResult)
      → Taken t c
      → d.history ≡ c.history
      → mpsc.queued c.chan ≡ x ∷ xs
      → mpsc.queued d.chan ≡ xs
      → Wired
          (write_command (recording receiver) t d x r).0
          (write_command (recording receiver) t d x r).1
  unfolding write_command
  Wired-takes t c d (send b) xs wrote_all (frames, l, w) h q q' =
      let held : Taken (record t { written = t.written ++ b }) d = (
        frames ++ (b ∷ []),
        h
            ∙ l
            ∙ ap (λ y. map send frames ++ y) q
            ∙ map-send_last frames b xs
            ∙ sym (ap (λ y. map send (frames ++ (b ∷ [])) ++ y) q'),
        ap (λ y. y ++ b) w ∙ sym (concat-append_last frames b),
      ) in
      record {
        front = IsFront-Taken (record t { written = t.written ++ b }) d held;
        taken = λ a. held;
      }
  Wired-takes t c d (send b) xs (wrote_part n) (frames, l, w) h q q' =
      let whole : bytes_of d.history ≡ concat frames ++ (b ++ bytes_of xs) =
        ap bytes_of (h ∙ l)
        ∙ bytes_of-append frames (mpsc.queued c.chan)
        ∙ ap (λ y. concat frames ++ bytes_of y) q in
      record {
        front = (
          drop n b ++ bytes_of xs,
          ap (λ y. (y ++ take n b) ++ (drop n b ++ bytes_of xs)) w
              ∙ append_assoc (concat frames) (take n b) (drop n b ++ bytes_of xs)
              ∙ ap (λ y. concat frames ++ y)
                  (sym (append_assoc (take n b) (drop n b) (bytes_of xs))
                    ∙ ap (λ y. y ++ bytes_of xs) (take-append-drop n b))
              ∙ sym whole,
        );
        taken = λ a. let impossible : ⊥ = cc in absurd impossible;
      }
  Wired-takes t c d disconnect xs r (frames, l, w) h q q' = record {
    front = (
      [],
      append-nil t.written
          ∙ w
          ∙ sym (
              ap bytes_of (h ∙ l)
              ∙ bytes_of-append frames (mpsc.queued c.chan)
              ∙ ap (λ y. concat frames ++ bytes_of y) q
              ∙ append-nil (concat frames)),
    );
    taken = λ a. let impossible : ⊥ = cc in absurd impossible;
  }

  Wired-writes :
      (senders : Bool) (t : Writer) (c : Recorded Chan) (r : WriteResult)
      → Wired t c
      → Wired
          (write_task (recording receiver) senders t c r).0
          (write_task (recording receiver) senders t c r).1
  Wired-writes senders t c r h =
      keeps (recording receiver) Wired t c r h
        (λ a q. record {
          front = h.front;
          taken = λ b. let impossible : ⊥ = cc in absurd impossible;
        })
        (λ x xs d a e q q' k o.
          Wired-takes t c d x xs r (h.taken a)
            (record_taken-history receiver c.history (receiver.recv c.chan) x d e) q q')
        senders

  Wired-IsKept : IsKept (recording receiver) Wired
  Wired-IsKept = record {
    fresh = record { front = ([], refl); taken = λ a. ([], sym (mpsc.queued-channel 100), refl) };
    accepts = Wired-accepts;
    writes = Wired-writes;
  }

  -- In every state that the system can reach, whatever the network, the clock and the scheduler do,
  -- what the write task of a connection has written is a front of the bytes of the frames that its
  -- channel has accepted, in that order, up to the first `Disconnect`.
  pub Reach-IsFront :
      (bitflags : Bitflags) {options : MipClientOptions} {s : System (Recorded Chan)}
      → Reach bitflags (recorded mpsc) (recording receiver) options s
      → (i : ℕ) (c : Recorded Chan) → get_elem? s.world.channels i ≡ some c
      → IsFront (s.writers i).written (bytes_of c.history)
  Reach-IsFront bitflags r i c e =
      (Reach-Holds bitflags (recorded mpsc) (recording receiver) Wired-IsKept r i c e).front
