-- ===== src/Client/System/Sends.antt =====
-- A `send` of `disconnect` ends at once, or when the write task has taken a command (mod.rs).
use mip_clients.Common.{
  ℕ, zero, suc, ◌≡◌, ◌<◌, ◌⊎◌, inl, inr, refl, ap, ◌∙◌, List, [], ◌∷◌, Option, none, some, length,
  get_elem?, get_elem?-set_self, set, Bool-cases, arith,
}
use mip_clients.Protocol.{Bitflags}
use mip_clients.Client.Types.{MipClientOptions}
use mip_clients.Client.Sending.{ClientCommand, Mpsc, Receiver, send_await}
use mip_clients.Client.Sending.Queueing.{send_await-open}
use mip_clients.Client.Api.{World, tx_channel, store_channel}
use mip_clients.Client.Tasks.{wrote_all}
use mip_clients.Client.Connection.{send_to, send_found, put_back}
use mip_clients.Client.System.State.{System, Event, write}
use mip_clients.Client.System.{step, Reach, later, has_sender, write_task, write_turn}
use mip_clients.Client.System.Sound.{Reach-Sound}
use mip_clients.Client.System.Room.{Reach-Fits, Ready, Ready-write_task}

get_elem?-of_lt {ℓ} :
    {A : Type ℓ} (xs : List A) (i : ℕ) → i < length xs → (a : A) × (get_elem? xs i ≡ some a)
get_elem?-of_lt [] i h = absurd (omega arith)
get_elem?-of_lt (x ∷ xs) zero h = (x, refl)
get_elem?-of_lt (x ∷ xs) (suc i) h = get_elem?-of_lt xs i (omega arith)

module _ {Chan : Type 0} {mpsc : Mpsc Chan} (receiver : Receiver mpsc) where
  -- `send` on the client's sender ends.
  abbrev pub Sends : World Chan → ClientCommand → Type 0
  Sends w x = (v : World Chan) × (send_to mpsc w x ≡ some v)

  send_await-Ready :
      (c : Chan) (x : ClientCommand)
      → Ready receiver c
      → (d : Chan) × (send_await mpsc c x ≡ some d)
  send_await-Ready c x r = elim (Bool-cases (mpsc.is_closed c)) [
    | inl e ↦ (c, unfold send_await in rw e)
    | inr e ↦
        let room : 0 < mpsc.capacity c = ground arith in
        let (d, f, _, _, _) = mpsc.try_send-some c x e room in (d, send_await-open mpsc c x e ∙ f)
  ]

  Sends-none : (w : World Chan) (x : ClientCommand) → w.client.command_tx ≡ none → Sends w x
  unfolding send_to send_found
  Sends-none w x e = (w, ap (λ tx. send_found mpsc w (tx_channel w.channels tx) x) e)

  Sends-Ready :
      (w : World Chan) (x : ClientCommand) (i : ℕ) (c : Chan)
      → w.client.command_tx ≡ some i
      → get_elem? w.channels i ≡ some c
      → Ready receiver c
      → Sends w x
  unfolding send_to send_found put_back
  Sends-Ready w x i c e f r =
      let (d, g) = send_await-Ready c x r in
      (
        record w { channels = store_channel w.channels w.client.command_tx (some d) },
        ap (λ tx. send_found mpsc w (tx_channel w.channels tx) x) e
            ∙ ap (λ o. send_found mpsc w o x) f
            ∙ ap (put_back mpsc w) g,
      )

module _ {Chan : Type 0} (bitflags : Bitflags) {mpsc : Mpsc Chan} (receiver : Receiver mpsc) where
  abbrev pub Reached : System Chan → Type 0
  Reached s = (options : MipClientOptions) × Reach bitflags mpsc receiver options s

  pub Reached-step :
      {s : System Chan} (e : Event) → Reached s → Reached (step bitflags mpsc receiver s e)
  Reached-step e (options, r) = (options, later r e)

  unfoldable pub written : System Chan → ℕ → System Chan
  written s i = step bitflags mpsc receiver s (write i wrote_all)

  written-found :
      (s : System Chan) (i : ℕ) (c : Chan)
      → get_elem? s.world.channels i ≡ some c
      → written s i ≡ write_turn bitflags mpsc receiver s i wrote_all (some c)
  unfolding written step
  written-found s i c e = ap (write_turn bitflags mpsc receiver s i wrote_all) e

  -- Now, or when the write task of connection `i` has taken a command.
  pub record SendsThen (s : System Chan) (x : ClientCommand) (i : ℕ) : Type 0 where
    pub named : s.world.client.command_tx ≡ some i
    pub sends : Sends receiver (written s i).world x
    pub user : (written s i).user ≡ s.user
    pub client : (written s i).world.client ≡ s.world.client

  abbrev pub SendsSoon : System Chan → ClientCommand → Type 0
  SendsSoon s x = Sends receiver s.world x ⊎ ((i : ℕ) × SendsThen s x i)

  SendsSoon-written :
      (s : System Chan) (x : ClientCommand) (i : ℕ) (c : Chan)
      → s.world.client.command_tx ≡ some i
      → get_elem? s.world.channels i ≡ some c
      → Ready receiver (write_task receiver (has_sender s i) (s.writers i) c wrote_all).1
      → SendsThen s x i
  unfolding write_turn
  SendsSoon-written s x i c e f r =
      let d = (write_task receiver (has_sender s i) (s.writers i) c wrote_all).1 in
      let found = written-found s i c f in
      record {
        named = e;
        sends = rw found (
            Sends-Ready receiver (record s.world { channels = set s.world.channels i d }) x i d e
              (get_elem?-set_self s.world.channels i c d f) r);
        user = ap (λ t. t.user) found;
        client = ap (λ t. t.world.client) found;
      }

  pub SendsSoon-at :
      {s : System Chan} (x : ClientCommand)
      → Reached s
      → (tx : Option ℕ) → s.world.client.command_tx ≡ tx
      → SendsSoon s x
  SendsSoon-at {s} x r none e = inl (Sends-none receiver s.world x e)
  SendsSoon-at {s} x r (some i) e =
      let (c, f) =
        get_elem?-of_lt s.world.channels i ((Reach-Sound bitflags mpsc receiver r.1).valid i e) in
      elim (Ready-write_task receiver (has_sender s i) (s.writers i) c
        (Reach-Fits receiver bitflags r.1 i c f)) [
          | inl now ↦ inl (Sends-Ready receiver s.world x i c e f now)
          | inr soon ↦ inr (i, SendsSoon-written s x i c e f soon)
        ]
