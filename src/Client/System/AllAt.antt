-- ===== src/Client/System/AllAt.antt =====
-- What holds of every channel with the write task of its connection.
use mip_clients.Common.{
  ℕ, ◌≡◌, inl, inr, sym, ap, ◌∙◌, List, [], ◌∷◌, ◌++◌, some, get_elem?, set, length,
  get_elem?-set_cases, get_elem?-last_cases,
}
use mip_clients.Client.Sending.{ClientCommand, Mpsc}
use mip_clients.Client.Tasks.{Writer}
use mip_clients.Client.System.Accepted.{Accepted, same, accepted}
use mip_clients.Client.System.State.{update, update_same, update_other}

module _ {Chan : Type 0} (mpsc : Mpsc Chan) (P : Writer → Chan → Type 0) where
  -- It holds of each channel with the write task of its connection.
  abbrev pub AllAt : List Chan → (ℕ → Writer) → Type 0
  AllAt channels writers = (i : ℕ) (c : Chan) → get_elem? channels i ≡ some c → P (writers i) c

  pub AllAt-set :
      (cs : List Chan) (ws : ℕ → Writer) (k : ℕ) (d : Chan)
      → AllAt cs ws
      → P (ws k) d
      → AllAt (set cs k d) ws
  AllAt-set cs ws k d h p i c e = elim (get_elem?-set_cases cs k i d c e) [
    | inl (q, r) ↦ rw (← q, ← r) p
    | inr (q, r) ↦ h i c r
  ]

  pub AllAt-turn :
      (cs : List Chan) (ws : ℕ → Writer) (k : ℕ) (t : Writer) (d : Chan)
      → AllAt cs ws
      → P t d
      → AllAt (set cs k d) (update ws k t)
  AllAt-turn cs ws k t d h p i c e = elim (get_elem?-set_cases cs k i d c e) [
    | inl (q, r) ↦ rw (← q, ← r, update_same ws k t) p
    | inr (q, r) ↦ rw (update_other ws k i t q) (h i c r)
  ]

  pub AllAt-spawn :
      (cs : List Chan) (ws : ℕ → Writer) (t : Writer) (d : Chan)
      → AllAt cs ws
      → P t d
      → AllAt (cs ++ (d ∷ [])) (update ws (length cs) t)
  AllAt-spawn cs ws t d h p i c e = elim (get_elem?-last_cases cs i d c e) [
    | inl (q, r) ↦ rw (← q, ← r, update_same ws (length cs) t) p
    | inr (q, r) ↦ rw (update_other ws (length cs) i t q) (h i c r)
  ]

  pub AllAt-Accepted :
      ((t : Writer) (c d : Chan) (x : ClientCommand) → P t c → mpsc.try_send c x ≡ some d → P t d)
      → {cs cs' : List Chan} (ws : ℕ → Writer) → Accepted mpsc cs cs'
      → AllAt cs ws
      → AllAt cs' ws
  AllAt-Accepted keep ws (same q) h i c e = h i c (sym (ap (λ l. get_elem? l i) q) ∙ e)
  AllAt-Accepted keep {cs} ws (accepted k a d x f s q) h i c e =
      AllAt-set cs ws k d h (keep (ws k) a d x (h k a f) s) i c
        (sym (ap (λ l. get_elem? l i) q) ∙ e)
