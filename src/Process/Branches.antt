-- ===== src/Process/Branches.antt =====
-- process/processor.go: what a step of processRevealEntry leaves is told by its branches.
use factom_code.Common.{ℕ, ◌≡◌, refl, Bool, true, false, Option, none, some, if◌then◌else◌}
use factom_code.Common.Exec.{ok, err, panic, continue, ◌>>=◌}
use factom_code.Entry.{Entry}
use factom_code.Process.{
  Env, State, Step, ProcessError, msg_reveal_entry, orphan_msg, entry_too_large,
}
use factom_code.Process.Reveal.{entry_hash, cost_or_error, orphan_if}
use factom_code.Process.Steps.{Outcome}

module _ (P : Outcome → Type 0) where
  pub if-cases :
      (b : Bool) (r r' : Outcome) → (b ≡ true → P r) → (b ≡ false → P r') → P (if b then r else r')
  if-cases true r r' h k = h refl
  if-cases false r r' h k = k refl

  pub if_step-cases :
      (b : Bool) (f g : Step) (s : State) → P (f s) → P (g s) → P ((if b then f else g) s)
  if_step-cases true f g s h k = h
  if_step-cases false f g s h k = k

  pub continue-cases :
      (r : Outcome) (g : Step)
      → ((x : ProcessError) (s : State) → r ≡ (err x, s) → P (err x, s))
      → ((s : State) → r ≡ (panic, s) → P (panic, s))
      → ((s : State) → r ≡ (ok tt, s) → P (g s))
      → P (continue r (λ u. g))
  continue-cases (ok u, s) g e p h = h s refl
  continue-cases (err x, s) g e p h = e x s refl
  continue-cases (panic, s) g e p h = p s refl

  module _ (env : Env) where
    pub orphan_if-cases :
        (b : Bool) (e : Entry) (x : ProcessError) (f : Unit → Step) (s : State)
        → (b ≡ true → P (err x, orphan_msg (msg_reveal_entry e) (entry_hash env e) s))
        → (b ≡ false → P (f tt s))
        → P ((orphan_if env b e x >>= f) s)
    orphan_if-cases true e x f s h k = h refl
    orphan_if-cases false e x f s h k = k refl

    pub cost-cases :
        (o : Option ℕ) (f : ℕ → Step) (s : State)
        → (o ≡ none → P (err entry_too_large, s))
        → ((n : ℕ) → o ≡ some n → P (f n s))
        → P ((cost_or_error env o >>= f) s)
    cost-cases none f s h k = h refl
    cost-cases (some n) f s h k = k n refl
