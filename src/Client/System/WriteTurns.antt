-- ===== src/Client/System/WriteTurns.antt =====
-- A turn of the write task, by what waits in its channel (internals.rs, `spawn_write_task`).
use mip_clients.Common.{
  suc, ◌≡◌, refl, ◌∙◌, Bool, true, false, List, [], ◌∷◌, Option, none, some, Bool-cases, inl, inr,
}
use mip_clients.Client.Sending.{ClientCommand, Mpsc, Receiver}
use mip_clients.Client.Tasks.{Writer, WriteResult, write_command}
use mip_clients.Client.Tasks.Writes.{active_step}
use mip_clients.Client.System.{write_task, write_or_end}

module _ {Chan : Type 0} {mpsc : Mpsc Chan} (receiver : Receiver mpsc) where
  write_task-inactive :
      (senders : Bool) (t : Writer) (c : Chan) (r : WriteResult)
      → t.active ≡ false
      → write_task receiver senders t c r ≡ (t, c)
  unfolding write_task
  write_task-inactive senders t c r e = rw e

  write_task-or_end :
      (senders : Bool) (t : Writer) (c : Chan) (r : WriteResult) (o : Option (ClientCommand × Chan))
      → t.active ≡ true
      → receiver.recv c ≡ o
      → write_task receiver senders t c r ≡ write_or_end receiver senders o t c r
  unfolding write_task
  write_task-or_end senders t c r o a e = rw (a, e)

  -- With a command in the channel the turn is that of `write_step`.
  pub write_task-next :
      (senders : Bool) (t : Writer) (c d : Chan) (x : ClientCommand) (r : WriteResult)
      → t.active ≡ true
      → receiver.recv c ≡ some (x, d)
      → write_task receiver senders t c r ≡ write_command receiver t d x r
  unfolding write_or_end
  write_task-next true t c d x r a e =
      write_task-or_end true t c r (some (x, d)) a e ∙ active_step receiver t c d x r a e
  write_task-next false t c d x r a e =
      write_task-or_end false t c r (some (x, d)) a e ∙ active_step receiver t c d x r a e

  -- What a turn keeps: it is enough to look at the end of a task without senders, and at each command.
  module _ (P : Writer → Chan → Type 0) (t : Writer) (c : Chan) (r : WriteResult) (h : P t c)
      (ends : t.active ≡ true
        → mpsc.queued c ≡ []
        → P (record t { active = false }) (receiver.drop_receiver c))
      (takes : (x : ClientCommand) (xs : List ClientCommand) (d : Chan)
        → t.active ≡ true
        → receiver.recv c ≡ some (x, d)
        → mpsc.queued c ≡ x ∷ xs
        → mpsc.queued d ≡ xs
        → mpsc.capacity d ≡ suc (mpsc.capacity c)
        → mpsc.is_closed d ≡ mpsc.is_closed c
        → P (write_command receiver t d x r).0 (write_command receiver t d x r).1) where
    abbrev Both : Writer × Chan → Type 0
    Both s = P s.0 s.1

    keeps_on :
        (senders : Bool) (q : List ClientCommand)
        → t.active ≡ true
        → mpsc.queued c ≡ q
        → Both (write_task receiver senders t c r)
    unfolding write_or_end
    keeps_on true [] a e = rw (write_task-or_end true t c r none a (receiver.recv-empty c e)) h
    keeps_on false [] a e =
        rw (write_task-or_end false t c r none a (receiver.recv-empty c e)) (ends a e)
    keeps_on senders (x ∷ xs) a e =
        let (d, f, q, k, o) = receiver.recv-queued c x xs e in
        rw (write_task-next senders t c d x r a f) (takes x xs d a f e q k o)

    pub keeps :
        (senders : Bool)
        → P (write_task receiver senders t c r).0 (write_task receiver senders t c r).1
    keeps senders = elim (Bool-cases t.active) [
      | inl a ↦ keeps_on senders (mpsc.queued c) a refl
      | inr a ↦ rw (write_task-inactive senders t c r a) h
    ]
