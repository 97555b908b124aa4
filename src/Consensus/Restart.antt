-- ===== src/Consensus/Restart.antt =====
-- consensus.go, newConsensus: what a replica takes over from the store when its process starts.
use coded_hotterstuff.Store.{
  get_tag_cert, decide_tag, locked_tag, prepare_tag, get_tag_header, get_voted, get_view,
}
use coded_hotterstuff.Consensus.Machine.{or_fatal, ◌then_load◌, new_consensus, number_or_crash}
use coded_hotterstuff.Consensus.State.{Consensus}
use coded_hotterstuff.Prelude.{ℕ, ◌≡◌, refl, List, [], some, none, Option, arith}
use coded_hotterstuff.Exec.{Outcome, ok, crash}
use coded_hotterstuff.Env.{Env}

load-eq-ok {ℓ κ} :
    {A : Type ℓ} {B : Type κ} (r : Outcome A) (f : A → Outcome B) {b : B}
    → (r then_load f) ≡ ok b
    → (a : A) × (r ≡ ok a) × (f a ≡ ok b)
load-eq-ok (ok a) f h = (a, refl, h)
load-eq-ok (crash r) f h = cc

number-eq-ok : (r : Option (Outcome ℕ)) (v : ℕ) → number_or_crash r ≡ ok v → r ≡ some (ok v)
number-eq-ok none v h = cc
number-eq-ok (some r) v h = cc

module _ (env : Env) where
  -- A started replica has the view and the last vote that the store holds, and has sent nothing.
  pub record IsLoaded (store : env.Db) (c : Consensus env) : Type 0 where
    pub same_store : c.store ≡ store
    pub view : get_view env store ≡ some (ok c.view)
    pub voted : get_voted env store ≡ some (ok c.voted)
    pub silent : c.progress.messages ≡ []

  pub new_consensus-IsLoaded :
      (store : env.Db) (id : ℕ) (replicas : List ℕ) (c : Consensus env)
      → new_consensus env store id replicas ≡ ok c
      → IsLoaded store c
  unfolding new_consensus
  new_consensus-IsLoaded store id replicas c h =
      let (view, p1, h1) = load-eq-ok (number_or_crash (get_view env store)) _ h in
      let (voted, p2, h2) = load-eq-ok (number_or_crash (get_voted env store)) _ h1 in
      let (prepare, p3, h3) = load-eq-ok (or_fatal (get_tag_header env store prepare_tag)) _ h2 in
      let (locked, p4, h4) = load-eq-ok (or_fatal (get_tag_header env store locked_tag)) _ h3 in
      let (commit, p5, h5) = load-eq-ok (or_fatal (get_tag_header env store decide_tag)) _ h4 in
      let (cert, p6, h6) = load-eq-ok (or_fatal (get_tag_cert env store prepare_tag)) _ h5 in
      let v = number-eq-ok (get_view env store) view p1 in
      let w = number-eq-ok (get_voted env store) voted p2 in
      record {
        same_store = ground arith;
        view = ground arith;
        voted = ground arith;
        silent = ground arith;
      }

  -- It keeps the identity that it is given.
  pub new_consensus-identity :
      (store : env.Db) (id : ℕ) (replicas : List ℕ) (c : Consensus env)
      → new_consensus env store id replicas ≡ ok c
      → (c.id ≡ id) × (c.replicas ≡ replicas)
  unfolding new_consensus
  new_consensus-identity store id replicas c h =
      let (view, p1, h1) = load-eq-ok (number_or_crash (get_view env store)) _ h in
      let (voted, p2, h2) = load-eq-ok (number_or_crash (get_voted env store)) _ h1 in
      let (prepare, p3, h3) = load-eq-ok (or_fatal (get_tag_header env store prepare_tag)) _ h2 in
      let (locked, p4, h4) = load-eq-ok (or_fatal (get_tag_header env store locked_tag)) _ h3 in
      let (commit, p5, h5) = load-eq-ok (or_fatal (get_tag_header env store decide_tag)) _ h4 in
      let (cert, p6, h6) = load-eq-ok (or_fatal (get_tag_cert env store prepare_tag)) _ h5 in
      ground arith
