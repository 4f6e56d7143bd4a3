-- ===== src/Client/System/Facts.antt =====
-- What the client's fields say of one another, by the phase of its owner (mod.rs), and that a step
-- which calms the client keeps it.
use mip_clients.Common.{ℕ, ◌≡◌, ◌≢◌, ◌<◌, refl, sym, ap, ◌∙◌, Bool, true, false, some}
use mip_clients.Client.State.{MipClient}
use mip_clients.Client.Connection.Disconnect.{IsOff}
use mip_clients.Client.System.State.{
  UserPhase, dialling, closing, sending, leaving, cleaning, dropped,
}
use mip_clients.Client.System.Calmer.{Calmer}

-- In `disconnect`.
abbrev pub is_leaving : UserPhase → Bool
is_leaving closing = true
is_leaving (sending _) = true
is_leaving leaving = true
is_leaving cleaning = true
is_leaving _ = false

-- A connected client that was not dropped has a sender, and a sender names a channel; a client that
-- dials is not connected; in `disconnect` it is off.
pub record IsSound (c : MipClient) (channels : ℕ) (u : UserPhase) : Type 0 where
  pub sender : u ≢ dropped → c.connected ≡ true → (i : ℕ) × (c.command_tx ≡ some i)
  pub valid : (i : ℕ) → c.command_tx ≡ some i → i < channels
  pub unconnected : u ≡ dialling → c.connected ≡ false
  pub off : is_leaving u ≡ true → IsOff c

not_true : (b : Bool) → (b ≡ true → ⊥) → b ≡ false
not_true true h = absurd (h refl)
not_true false h = refl

false_of : (b b' : Bool) → (b' ≡ true → b ≡ true) → b ≡ false → b' ≡ false
false_of b true h e = cc (h refl)
false_of b false h e = refl

-- A step that calms the client, to a phase that asks for no more, keeps it sound.
pub IsSound-Calmer :
    (c c' : MipClient) (n : ℕ) (u u' : UserPhase)
    → IsSound c n u
    → Calmer c c'
    → (u ≡ dropped → u' ≡ dropped)
    → (u' ≡ dialling → u ≡ dialling)
    → (is_leaving u' ≡ true → is_leaving u ≡ true)
    → IsSound c' n u'
IsSound-Calmer c c' n u u' h k d l g = record {
  sender = λ nd on. let (i, e) = h.sender (λ e. nd (d e)) (k.connected on) in (i, k.tx ∙ e);
  valid = λ i e. h.valid i (sym k.tx ∙ e);
  unconnected = λ e. false_of c.connected c'.connected k.connected (h.unconnected (l e));
  off = λ e.
      let o = h.off (g e) in
      record {
        running = false_of c.running c'.running k.running o.running;
        auto_reconnect = ap (λ x. x.auto_reconnect) k.options ∙ o.auto_reconnect;
      };
}
