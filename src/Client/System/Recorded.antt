-- ===== src/Client/System/Recorded.antt =====
-- Channels that keep the history of what they accepted, which no operation looks at. A system over
-- them runs as one over the channels themselves.
use mip_clients.Common.{suc, ◌≡◌, ◌<◌, ap, false, List, [], ◌∷◌, ◌++◌, Option, none, some}
use mip_clients.Client.Sending.{ClientCommand, Mpsc, Receiver}

-- A channel with all commands that it has accepted.
pub record Recorded (Chan : Type 0) : Type 0 where
  pub chan : Chan
  pub history : List ClientCommand

module _ {Chan : Type 0} (mpsc : Mpsc Chan) where
  abbrev pub record_sent : List ClientCommand → ClientCommand → Option Chan → Option (Recorded Chan)
  record_sent history x none = none
  record_sent history x (some d) = some (record { chan = d; history = history ++ (x ∷ []) })

  pub recorded_some :
      (c : Recorded Chan) (x : ClientCommand)
      → mpsc.is_closed c.chan ≡ false
      → 0 < mpsc.capacity c.chan
      → (d : Recorded Chan) × (record_sent c.history x (mpsc.try_send c.chan x) ≡ some d)
        × (mpsc.queued d.chan ≡ mpsc.queued c.chan ++ (x ∷ []))
        × (suc (mpsc.capacity d.chan) ≡ mpsc.capacity c.chan)
        × (mpsc.is_closed d.chan ≡ false)
  recorded_some c x o r =
      let (d, e, q, k, f) = mpsc.try_send-some c.chan x o r in
      (
        record { chan = d; history = c.history ++ (x ∷ []) },
        ap (record_sent c.history x) e,
        q,
        k,
        f,
      )

  pub recorded_none :
      (c : Recorded Chan) (x : ClientCommand)
      → mpsc.try_send c.chan x ≡ none
      → record_sent c.history x (mpsc.try_send c.chan x) ≡ none
  recorded_none c x e = ap (record_sent c.history x) e

  -- The same channels, with their histories, which no operation looks at.
  abbrev pub recorded : Mpsc (Recorded Chan)
  recorded = record {
    channel = λ n. record { chan = mpsc.channel n; history = [] };
    queued = λ c. mpsc.queued c.chan;
    capacity = λ c. mpsc.capacity c.chan;
    is_closed = λ c. mpsc.is_closed c.chan;
    try_send = λ c x. record_sent c.history x (mpsc.try_send c.chan x);
    queued-channel = mpsc.queued-channel;
    capacity-channel = mpsc.capacity-channel;
    is_closed-channel = mpsc.is_closed-channel;
    try_send-none = λ c x h. recorded_none c x (mpsc.try_send-none c.chan x h);
    try_send-full = λ c x h. recorded_none c x (mpsc.try_send-full c.chan x h);
    try_send-some = recorded_some;
  }

  pub record_sent-history :
      (h : List ClientCommand) (x : ClientCommand) (o : Option Chan) (d : Recorded Chan)
      → record_sent h x o ≡ some d
      → d.history ≡ h ++ (x ∷ [])
  record_sent-history h x none d e = cc
  record_sent-history h x (some c) d e = cc

module _ {Chan : Type 0} {mpsc : Mpsc Chan} (receiver : Receiver mpsc) where
  abbrev pub record_taken :
      List ClientCommand → Option (ClientCommand × Chan) → Option (ClientCommand × Recorded Chan)
  record_taken history none = none
  record_taken history (some (x, d)) = some (x, record { chan = d; history = history })

  pub recorded_queued :
      (c : Recorded Chan) (x : ClientCommand) (xs : List ClientCommand)
      → mpsc.queued c.chan ≡ x ∷ xs
      → (d : Recorded Chan) × (record_taken c.history (receiver.recv c.chan) ≡ some (x, d))
        × (mpsc.queued d.chan ≡ xs)
        × (mpsc.capacity d.chan ≡ suc (mpsc.capacity c.chan))
        × (mpsc.is_closed d.chan ≡ mpsc.is_closed c.chan)
  recorded_queued c x xs e =
      let (d, f, q, k, o) = receiver.recv-queued c.chan x xs e in
      (record { chan = d; history = c.history }, ap (record_taken c.history) f, q, k, o)

  abbrev pub recording : Receiver (recorded mpsc)
  recording = record {
    recv = λ c. record_taken c.history (receiver.recv c.chan);
    drop_receiver = λ c. record c { chan = receiver.drop_receiver c.chan };
    recv-empty = λ c e. ap (record_taken c.history) (receiver.recv-empty c.chan e);
    recv-queued = recorded_queued;
    is_closed-drop_receiver = λ c. receiver.is_closed-drop_receiver c.chan;
  }

  pub record_taken-history :
      (h : List ClientCommand) (o : Option (ClientCommand × Chan)) (x : ClientCommand)
      (d : Recorded Chan)
      → record_taken h o ≡ some (x, d)
      → d.history ≡ h
  record_taken-history h none x d e = cc
  record_taken-history h (some (y, c)) x d e = cc
