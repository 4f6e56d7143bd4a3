-- ===== src/Examples/Models.antt =====
-- Concrete functions for what the model takes as parameters: the bitflags crate and tokio's channel.
use mip_clients.Common.{
  ℕ, zero, suc, ◌≡◌, ◌<◌, refl, Bool, true, false, List, [], ◌∷◌, ◌++◌, Option, none, some, bit_and,
  ascii, arith,
}
use mip_clients.Protocol.{Bitflags, declared_bits}
use mip_clients.Utf8.{IsUtf8, encode_utf8, encode_scalar}
use mip_clients.Client.Types.{default_options}
use mip_clients.Client.Events.{Callbacks, default_callbacks}
use mip_clients.Client.Sending.{ClientCommand, Mpsc, Receiver}
use mip_clients.Client.State.{client_new}
use mip_clients.Client.Api.{World}

abbrev pub masking : Bitflags
masking = record {
  all = record { bits = declared_bits };
  from_bits_truncate = λ b. record { bits = bit_and b declared_bits };
  bits-all = refl;
  bits-from_bits_truncate = λ b h. refl;
}

pub record Queue : Type 0 where
  pub items : List ClientCommand
  pub room : ℕ
  pub closed : Bool

abbrev pub push_within : Queue → ℕ → Bool → ClientCommand → Option Queue
push_within q room true x = none
push_within q zero false x = none
push_within q (suc room) false x =
    some (record { items = q.items ++ (x ∷ []); room = room; closed = false })

abbrev pub push : Queue → ClientCommand → Option Queue
push q x = push_within q q.room q.closed x

pub push-closed : (q : Queue) (x : ClientCommand) → q.closed ≡ true → push q x ≡ none
push-closed q x e = ground arith

pub push-full : (q : Queue) (x : ClientCommand) → q.room ≡ 0 → push q x ≡ none
push-full q x e = ground arith

pub push_within-some :
    (q : Queue) (room : ℕ) (closed : Bool) (x : ClientCommand)
    → closed ≡ false
    → 0 < room
    → (d : Queue) × (push_within q room closed x ≡ some d)
      × (d.items ≡ q.items ++ (x ∷ []))
      × (suc d.room ≡ room)
      × (d.closed ≡ false)
push_within-some q room true x e h = cc
push_within-some q zero false x e h = absurd (omega arith)
push_within-some q (suc room) false x e h = (_, refl, refl, refl, refl)

abbrev pub queues : Mpsc Queue
queues = record {
  channel = λ n. record { items = []; room = n; closed = false };
  queued = λ q. q.items;
  capacity = λ q. q.room;
  is_closed = λ q. q.closed;
  try_send = push;
  queued-channel = λ n. refl;
  capacity-channel = λ n. refl;
  is_closed-channel = λ n. refl;
  try_send-none = push-closed;
  try_send-full = push-full;
  try_send-some = λ q x. push_within-some q q.room q.closed x;
}

abbrev pub take_first : Queue → List ClientCommand → Option (ClientCommand × Queue)
take_first q [] = none
take_first q (x ∷ xs) = some (x, record q { items = xs; room = suc q.room })

pub recv-queued :
    (q : Queue) (items : List ClientCommand) (x : ClientCommand) (xs : List ClientCommand)
    → items ≡ x ∷ xs
    → (d : Queue) × (take_first q items ≡ some (x, d))
      × (d.items ≡ xs)
      × (d.room ≡ suc q.room)
      × (d.closed ≡ q.closed)
recv-queued q items x xs e = rw e (_, refl, refl, refl, refl)

pub recv-empty : (q : Queue) (items : List ClientCommand) → items ≡ [] → take_first q items ≡ none
recv-empty q items e = rw e

abbrev pub receivers : Receiver queues
receivers = record {
  recv = λ q. take_first q q.items;
  drop_receiver = λ q. record q { closed = true };
  recv-empty = λ q. recv-empty q q.items;
  recv-queued = λ q. recv-queued q q.items;
  is_closed-drop_receiver = λ q. refl;
}

-- A connected client, with an empty channel of 100 places.
abbrev pub online : World Queue
unfolding client_new
online = record {
  client = record (client_new default_options) {
    connected = true;
    running = true;
    command_tx = some 0;
  };
  channels = queues.channel 100 ∷ [];
}

-- Callback 1 listens for messages, 2 and 3 for errors.
abbrev pub listeners : Callbacks
listeners = record default_callbacks { on_message = 1 ∷ []; on_error = 2 ∷ 3 ∷ [] }

pub news-IsUtf8 : IsUtf8 (ascii "news")
unfolding encode_utf8 encode_scalar
news-IsUtf8 = record { chars = ascii "news"; scalars = omega arith; encoded = refl }

pub hi-IsUtf8 : IsUtf8 (ascii "hi")
unfolding encode_utf8 encode_scalar
hi-IsUtf8 = record { chars = ascii "hi"; scalars = omega arith; encoded = refl }
