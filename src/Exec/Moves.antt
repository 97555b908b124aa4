-- ===== src/Exec/Moves.antt =====
-- A relation between the state before and after an action, one rule for each way to build one.
-- An action that crashes has no state after it, and relates nothing.
use coded_hotterstuff.Prelude.{ap, ◌≡◌, refl, Bool, true, false, if◌then◌else◌, Option, none, some}
use coded_hotterstuff.Exec.{
  Reason, Outcome, ok, crash, Exec, pure, fail, gets, lift, or_crash, continue, ◌>>=◌,
}

abbrev pub After : {S A : Type 0} → Outcome (A × S) → (A → S → Type 0) → Type 0
After (ok (a, s)) Q = Q a s
After (crash r) Q = Unit {0}

pub record Moves {S A : Type 0} (R : S → S → Type 0) (m : Exec S A) : Type 0 where
  pub from : (s : S) → After (m s) (λ _ s'. R s s')

pub record IsPreorder {S : Type 0} (R : S → S → Type 0) : Type 0 where
  pub refl_at : (s : S) → R s s
  pub trans_at : (s t u : S) → R s t → R t u → R s u

module _ {S A : Type 0} {R : S → S → Type 0} (order : IsPreorder R) where
  pub Moves-pure : (a : A) → Moves R (pure a)
  unfolding pure
  Moves-pure a = record { from = order.refl_at }

  pub Moves-fail : (r : Reason) → Moves R (fail {A = A} r)
  unfolding fail
  Moves-fail r = record { from = λ s. tt }

  pub Moves-gets : (f : S → A) → Moves R (gets f)
  unfolding gets
  Moves-gets f = record { from = order.refl_at }

  pub Moves-lift : (o : Outcome A) → Moves R (lift o)
  unfolding lift
  Moves-lift (ok a) = record { from = order.refl_at }
  Moves-lift (crash r) = record { from = λ s. tt }

  pub Moves-or_crash : (r : Reason) (o : Option A) → Moves R (or_crash r o)
  unfolding or_crash
  Moves-or_crash r none = record { from = λ s. tt }
  Moves-or_crash r (some a) = record { from = order.refl_at }

module _ {S A : Type 0} {R : S → S → Type 0} where
  pub Moves-if : (b : Bool) (m n : Exec S A) → Moves R m → Moves R n → Moves R (if b then m else n)
  Moves-if true m n hm hn = hm
  Moves-if false m n hm hn = hn

module _ {S B : Type 0} {R : S → S → Type 0} (order : IsPreorder R) where
  pub After-trans :
      {s t : S} (o : Outcome (B × S)) → R s t → After o (λ _ u. R t u) → After o (λ _ u. R s u)
  After-trans {s} {t} (ok (b, u)) h k = order.trans_at s t u h k
  After-trans (crash r) h k = tt

  -- From one state: a step that is made by hand, and then an action that moves.
  pub After-then : (s t : S) (m : Exec S B) → R s t → Moves R m → After (m t) (λ _ u. R s u)
  After-then s t m h k = After-trans (m t) h (k.from t)

module _ {S A B : Type 0} {R : S → S → Type 0} (order : IsPreorder R) where
  Moves-continue :
      (o : Outcome (A × S)) (f : A → Exec S B) (s : S)
      → After o (λ _ t. R s t)
      → ((a : A) → Moves R (f a))
      → After (continue o f) (λ _ u. R s u)
  Moves-continue (ok (a, t)) f s h k = After-then order s t (f a) h (k a)
  Moves-continue (crash r) f s h k = tt

  pub Moves-bind :
      (m : Exec S A) (f : A → Exec S B) → Moves R m → ((a : A) → Moves R (f a)) → Moves R (m >>= f)
  unfolding ◌>>=◌
  Moves-bind m f hm hf = record { from = λ s. Moves-continue (m s) f s (hm.from s) hf }

module _ {S A B : Type 0} where
  -- One action after another, from a given state.
  pub After-bind :
      (Q : B → S → Type 0) (m : Exec S A) (f : A → Exec S B) (s : S)
      → After (m s) (λ a t. After (f a t) Q)
      → After ((m >>= f) s) Q
  unfolding ◌>>=◌
  After-bind Q m f s h = go (m s) h
    where
      go : (o : Outcome (A × S)) → After o (λ a t. After (f a t) Q) → After (continue o f) Q
      go (ok (a, t)) h = h
      go (crash r) h = tt

module _ {S A : Type 0} where
  pub After-lift :
      (Q : A → S → Type 0) (o : Outcome A) (s : S)
      → ((a : A) → o ≡ ok a → Q a s)
      → After (lift o s) Q
  unfolding lift
  After-lift Q (ok a) s h = h a refl
  After-lift Q (crash r) s h = tt

  pub After-or_crash :
      (Q : A → S → Type 0) (r : Reason) (o : Option A) (s : S)
      → ((a : A) → o ≡ some a → Q a s)
      → After (or_crash r o s) Q
  unfolding or_crash
  After-or_crash Q r none s h = tt
  After-or_crash Q r (some a) s h = h a refl

  pub After-weaken :
      (P Q : A → S → Type 0) (o : Outcome (A × S))
      → After o P
      → ((a : A) (s : S) → P a s → Q a s)
      → After o Q
  After-weaken P Q (ok (a, s)) h k = k a s h
  After-weaken P Q (crash r) h k = tt

module _ {S A B : Type 0} where
  -- A call that may crash, in front of what follows.
  pub lift-then :
      (Q : B → S → Type 0) (o : Outcome A) (s : S) (g : A → Exec S B)
      → ((a : A) → o ≡ ok a → After (g a s) Q)
      → After (continue (lift o s) g) Q
  unfolding lift
  lift-then Q (ok a) s g h = h a refl
  lift-then Q (crash r) s g h = tt

pub ruleset moves_rules =
    (Moves-pure, Moves-fail, Moves-gets, Moves-lift, Moves-or_crash, Moves-if, Moves-bind)

module _ {S A : Type 0} where
  pub After-both :
      (P Q : A → S → Type 0) (o : Outcome (A × S))
      → After o P
      → After o Q
      → After o (λ a s. P a s × Q a s)
  After-both P Q (ok (a, s)) h k = (h, k)
  After-both P Q (crash r) h k = tt

module _ {S A B : Type 0} {R : S → S → Type 0} (order : IsPreorder R) where
  -- An action that moves, in front of what follows, from a state that was moved to.
  pub After-moves :
      (Q : B → S → Type 0) (m : Exec S A) (f : A → Exec S B) (s t : S)
      → Moves R m
      → R s t
      → ((a : A) (u : S) → R s u → After (f a u) Q)
      → After ((m >>= f) t) Q
  After-moves Q m f s t h before k = After-bind Q m f t (
      After-weaken (λ a u. R s u) (λ a u. After (f a u) Q) (m t)
        (After-trans order (m t) before (h.from t)) k)

module _ {S A : Type 0} where
  pub After-any : (o : Outcome (A × S)) → After o (λ _ s. Unit {0})
  After-any (ok (a, s)) = tt
  After-any (crash r) = tt

  -- What an action that moves has come to.
  pub Moves-at :
      {R : S → S → Type 0} {m : Exec S A} {s t : S} {a : A} → Moves R m → m s ≡ ok (a, t) → R s t
  Moves-at {R} {m} {s} {t} {a} h p = go (m s) (h.from s) p
    where
      go : (o : Outcome (A × S)) → After o (λ _ u. R s u) → o ≡ ok (a, t) → R s t
      go (ok (b, u)) k q = let same : u ≡ t = cc in rw same at k
      go (crash r) k q = cc

module _ {S A B : Type 0} where
  -- One action after another, where it is known what the first has come to.
  pub After-result :
      (Q : B → S → Type 0) (m : Exec S A) (f : A → Exec S B) (s : S)
      → ((a : A) (t : S) → m s ≡ ok (a, t) → After (f a t) Q)
      → After ((m >>= f) s) Q
  After-result Q m f s k = After-bind Q m f s (go (m s) k)
    where
      go :
          (o : Outcome (A × S))
          → ((a : A) (t : S) → o ≡ ok (a, t) → After (f a t) Q)
          → After o (λ a t. After (f a t) Q)
      go (ok (a, t)) k = k a t refl
      go (crash r) k = tt

  pub then_result :
      (m : Exec S A) (f : A → Exec S B) (s : S) {a : A} {t : S}
      → m s ≡ ok (a, t)
      → (m >>= f) s ≡ f a t
  unfolding ◌>>=◌
  then_result m f s p = ap (λ o. continue o f) p
