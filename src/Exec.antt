-- ===== src/Exec.antt =====
-- A Go method that mutates its receiver: the state goes in and comes out beside the result.
-- `crash` ends the process: a panic, a call of zap's Fatal, or (of no Go run) fuel that ran out.
pub mod Moves
pub mod Ends
use coded_hotterstuff.Prelude.{◌≡◌, refl, Bool, true, false, if◌then◌else◌, Option, none, some}

pub data Reason : Type 0 where
  panic fatal out_of_fuel : Reason

pub data Outcome {ℓ} (A : Type ℓ) : Type ℓ where
  ok : A → Outcome A
  crash : Reason → Outcome A

abbrev pub Exec : Type 0 → Type 0 → Type 0
Exec S A = S → Outcome (A × S)

module _ {S : Type 0} where
  unfoldable pub pure : {A : Type 0} → A → Exec S A
  pure a s = ok (a, s)

  unfoldable pub fail : {A : Type 0} → Reason → Exec S A
  fail r s = crash r

  unfoldable pub gets : {A : Type 0} → (S → A) → Exec S A
  gets f s = ok (f s, s)

  unfoldable pub modify : (S → S) → Exec S (Unit {0})
  modify f s = ok (tt, f s)

  -- A call that may crash and leaves the state alone.
  unfoldable pub lift : {A : Type 0} → Outcome A → Exec S A
  lift (ok a) s = ok (a, s)
  lift (crash r) s = crash r

  -- A pointer that is dereferenced, or an error that is fatal.
  unfoldable pub or_crash : {A : Type 0} → Reason → Option A → Exec S A
  or_crash r (some a) s = ok (a, s)
  or_crash r none s = crash r

module _ {S A B : Type 0} where
  abbrev pub continue : Outcome (A × S) → (A → Exec S B) → Outcome (B × S)
  continue (ok (a, s)) f = f a s
  continue (crash r) f = crash r

  infixl 5 ◌>>=◌ ◌>>◌
  -- Opening this opens the actions above too.
  unfoldable pub ◌>>=◌ : Exec S A → (A → Exec S B) → Exec S B
  unfolding pure fail gets modify lift or_crash
  ◌>>=◌ m f s = continue (m s) f

  abbrev pub ◌>>◌ : Exec S A → Exec S B → Exec S B
  m >> k = m >>= λ _. k
