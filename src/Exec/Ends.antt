-- ===== src/Exec/Ends.antt =====
-- An action that does not run out of fuel: from any state it returns or crashes as the code may.
use coded_hotterstuff.Prelude.{◌≡◌, ◌≢◌, refl, Bool, true, false, if◌then◌else◌, Option, none, some}
use coded_hotterstuff.Exec.{
  panic, out_of_fuel, Outcome, ok, crash, Exec, pure, gets, modify, lift, or_crash, continue, ◌>>=◌,
}

pub record Ends {S A : Type 0} (m : Exec S A) : Type 0 where
  pub ends : (s : S) → m s ≢ crash out_of_fuel

module _ {S A : Type 0} where
  pub Ends-pure : (a : A) → Ends {S = S} (pure a)
  unfolding pure
  Ends-pure a = record { ends = λ s p. cc }

  pub Ends-gets : (f : S → A) → Ends (gets f)
  unfolding gets
  Ends-gets f = record { ends = λ s p. cc }

  pub Ends-lift : (o : Outcome A) → o ≢ crash out_of_fuel → Ends {S = S} (lift o)
  unfolding lift
  Ends-lift (ok a) h = record { ends = λ s p. cc }
  Ends-lift (crash r) h = record { ends = λ s p. let q : r ≡ out_of_fuel = cc in h (rw q refl) }

  pub Ends-panic : (o : Option A) → Ends {S = S} (or_crash panic o)
  unfolding or_crash
  Ends-panic none = record { ends = λ s p. cc }
  Ends-panic (some a) = record { ends = λ s p. cc }

  pub Ends-if : (b : Bool) (m n : Exec S A) → Ends m → Ends n → Ends (if b then m else n)
  Ends-if true m n hm hn = hm
  Ends-if false m n hm hn = hn

module _ {S : Type 0} where
  pub Ends-modify : (f : S → S) → Ends (modify f)
  unfolding modify
  Ends-modify f = record { ends = λ s p. cc }

module _ {S A B : Type 0} where
  pub Ends-bind :
      (m : Exec S A) (f : A → Exec S B) → Ends m → ((a : A) → Ends (f a)) → Ends (m >>= f)
  unfolding ◌>>=◌
  Ends-bind m f hm hf = record { ends = λ s. go (m s) (hm.ends s) }
    where
      go : (o : Outcome (A × S)) → o ≢ crash out_of_fuel → continue o f ≢ crash out_of_fuel
      go (ok (a, t)) h p = (hf a).ends t p
      go (crash r) h p = h (let q : r ≡ out_of_fuel = cc in rw q refl)

pub ruleset ends_rules = (Ends-pure, Ends-gets, Ends-modify, Ends-panic, Ends-if, Ends-bind)
