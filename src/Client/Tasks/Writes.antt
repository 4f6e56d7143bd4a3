-- ===== src/Client/Tasks/Writes.antt =====
-- What the write task writes (internals.rs, `spawn_write_task`).
use mip_clients.Common.{
  map, Bool, not, take, ◌≡◌, refl, sym, ap, ◌∙◌, true, false, Bytes, List, [], ◌∷◌, ◌++◌, none,
  some, length, replicate, append-nil, append_assoc,
}
use mip_clients.Client.Sending.{ClientCommand, send, disconnect, Mpsc, Receiver}
use mip_clients.Client.Tasks.{Writer, WriteResult, wrote_all, wrote_part, write_step, write_command}

-- The bytes of the frames among the commands, up to the first `Disconnect`.
abbrev pub bytes_of : List ClientCommand → Bytes
bytes_of [] = []
bytes_of (send bytes ∷ commands) = bytes ++ bytes_of commands
bytes_of (disconnect ∷ commands) = []

-- The payloads of frames, one behind the other.
abbrev pub concat : List Bytes → Bytes
concat [] = []
concat (b ∷ bs) = b ++ concat bs

pub bytes_of-append :
    (frames : List Bytes) (commands : List ClientCommand)
    → bytes_of (map send frames ++ commands) ≡ concat frames ++ bytes_of commands
bytes_of-append [] commands = refl
bytes_of-append (b ∷ bs) commands =
    ap (λ x. b ++ x) (bytes_of-append bs commands)
    ∙ sym (append_assoc b (concat bs) (bytes_of commands))

module _ {Chan : Type 0} {mpsc : Mpsc Chan} (receiver : Receiver mpsc) where
  -- Steps of the write task, with the answers of `write_all`.
  unfoldable pub write_run : Writer → Chan → List WriteResult → Writer × Chan
  write_run t c [] = (t, c)
  write_run t c (r ∷ rs) = let (t', c') = write_step receiver t c r in write_run t' c' rs

  run_step :
      (t : Writer) (c : Chan) (r : WriteResult) (rs : List WriteResult) {s : Writer × Chan}
      → write_step receiver t c r ≡ s
      → write_run t c (r ∷ rs) ≡ write_run s.0 s.1 rs
  unfolding write_run
  run_step t c r rs e = ap (λ (s : Writer × Chan). write_run s.0 s.1 rs) e

  inactive_step :
      (t : Writer) (c : Chan) (r : WriteResult)
      → t.active ≡ false
      → write_step receiver t c r ≡ (t, c)
  unfolding write_step
  inactive_step t c r e = rw e

  -- An ended task does nothing more.
  inactive_run :
      (t : Writer) (c : Chan) (rs : List WriteResult) → t.active ≡ false → write_run t c rs ≡ (t, c)
  unfolding write_run
  inactive_run t c [] e = refl
  inactive_run t c (r ∷ rs) e = rw (inactive_step t c r e) (inactive_run t c rs e)

  pub active_step :
      (t : Writer) (c d : Chan) (x : ClientCommand) (r : WriteResult)
      → t.active ≡ true
      → receiver.recv c ≡ some (x, d)
      → write_step receiver t c r ≡ write_command receiver t d x r
  unfolding write_step
  active_step t c d x r e h = rw (e, h)

  -- With writes that succeed, a running task that takes as many steps as there are commands in the
  -- channel has written the bytes of their frames, in the order queued, up to the first `Disconnect`,
  -- and nothing behind that.
  pub write_run-bytes_of :
      (commands : List ClientCommand) (t : Writer) (c : Chan)
      → t.active ≡ true
      → mpsc.queued c ≡ commands
      → (write_run t c (replicate (length commands) wrote_all)).0.written
        ≡ t.written ++ bytes_of commands
  unfolding write_command
  write_run-bytes_of [] t c a q = unfold write_run in sym (append-nil t.written)
  write_run-bytes_of (send bytes ∷ commands) t c a q =
      let (d, e, q', _, _) = receiver.recv-queued c (send bytes) commands q in
      rw (run_step t c wrote_all _ (active_step t c d (send bytes) wrote_all a e)) (
        write_run-bytes_of commands (record t { written = t.written ++ bytes }) d a q'
        ∙ append_assoc t.written bytes (bytes_of commands))
  write_run-bytes_of (disconnect ∷ commands) t c a q =
      let (d, e, q', _, _) = receiver.recv-queued c disconnect commands q in
      let last = record t { shut = true; active = false } in
      rw (run_step t c wrote_all _ (active_step t c d disconnect wrote_all a e)) (
        rw
          (inactive_run last (receiver.drop_receiver d) (replicate (length commands) wrote_all)
            refl)
          (sym (append-nil t.written)))

  -- The task ends on a failing write, and on `Disconnect`.
  abbrev pub ends : ClientCommand → WriteResult → Bool
  ends (send bytes) wrote_all = false
  ends (send bytes) (wrote_part n) = true
  ends disconnect r = true

  -- What a write has put on the wire.
  abbrev pub put : ClientCommand → WriteResult → Bytes
  put (send bytes) wrote_all = bytes
  put (send bytes) (wrote_part n) = take n bytes
  put disconnect r = []

  -- What is left of the channel: a task that has ended leaves one that refuses all that is sent, a task
  -- that goes on leaves the later commands, in an open channel if it was open.
  abbrev pub Leaves : Bool → Chan → List ClientCommand → Chan → Type 0
  Leaves true c later d = (y : ClientCommand) → mpsc.try_send d y ≡ none
  Leaves false c later d = (mpsc.queued d ≡ later) × (mpsc.is_closed d ≡ mpsc.is_closed c)

  write_command-ends :
      (t : Writer) (c d : Chan) (x : ClientCommand) (later : List ClientCommand) (r : WriteResult)
      → t.active ≡ true
      → mpsc.queued d ≡ later
      → mpsc.is_closed d ≡ mpsc.is_closed c
      → let (t', d') = write_command receiver t d x r in
        (t'.active ≡ not (ends x r))
        × (t'.written ≡ t.written ++ put x r)
        × Leaves (ends x r) c later d'
  unfolding write_command
  write_command-ends t c d (send bytes) later wrote_all a q o = (a, refl, (q, o))
  write_command-ends t c d (send bytes) later (wrote_part n) a q o =
      (refl, refl, λ y. mpsc.try_send-none _ y (receiver.is_closed-drop_receiver d))
  write_command-ends t c d disconnect later r a q o = (
    refl,
    sym (append-nil t.written),
    λ y. mpsc.try_send-none _ y (receiver.is_closed-drop_receiver d),
  )

  -- A running write task that takes a command, whatever the command and whatever the write answers: it
  -- ends exactly on a failing write and on `Disconnect`; it has put the frame, or the part of it that was
  -- written, behind what it had written; and when it has ended the channel refuses what is sent from then
  -- on, else it holds the later commands and is open if it was.
  pub write_step-ends :
      (t : Writer) (c : Chan) (x : ClientCommand) (later : List ClientCommand) (r : WriteResult)
      → t.active ≡ true
      → mpsc.queued c ≡ x ∷ later
      → let (t', d) = write_step receiver t c r in
        (t'.active ≡ not (ends x r))
        × (t'.written ≡ t.written ++ put x r)
        × Leaves (ends x r) c later d
  write_step-ends t c x later r a q =
      let (d, e, q', _, o) = receiver.recv-queued c x later q in
      rw (active_step t c d x r a e) (write_command-ends t c d x later r a q' o)
