-- ===== src/Node/Own.antt =====
-- node.go: NewNode, the place of a node among the replicas.
use coded_hotterstuff.Prelude.{
  ℕ, zero, suc, ◌+◌, ◌%◌, ◌^◌, ◌<◌, ◌≡◌, refl, ap, ◌∙◌, true, false, inl, inr, Bool-cases, List, [],
  ◌∷◌, length, get_elem?, some, arith,
}
use coded_hotterstuff.Exec.{ok}
use coded_hotterstuff.Consensus.State.{Consensus}
use coded_hotterstuff.Consensus.Machine.{new_consensus}
use coded_hotterstuff.Node.{enter_loop}
use coded_hotterstuff.Node.New.{
  Platform, Replica, Config, ids_from, rid_from, node_env, entered, new_node,
}
use coded_hotterstuff.Program.{up_from}

module _ (p : Platform) where
  open p.bls use {PublicKey, SecretKey}

  -- The replica at `j`, and no other, has the key.
  pub record IsOwn (own : PublicKey) (rs : List (Replica p)) (j : ℕ) : Type 0 where
    pub replica : Replica p
    pub there : get_elem? rs j ≡ some replica
    pub own_key : p.same_key own replica.id ≡ true
    pub only :
        (i : ℕ) (r : Replica p) → get_elem? rs i ≡ some r → p.same_key own r.id ≡ true → i ≡ j

  rid_from-absent :
      (own : PublicKey) (i rid : ℕ) (rs : List (Replica p))
      → ((k : ℕ) (r : Replica p) → get_elem? rs k ≡ some r → p.same_key own r.id ≡ false)
      → rid_from p own i rid rs ≡ rid
  unfolding rid_from
  rid_from-absent own i rid [] h = refl
  rid_from-absent own i rid (r ∷ rs) h =
      rw (h 0 r refl) (rid_from-absent own (suc i) rid rs (λ k s. h (suc k) s))

  rid_from-own :
      (own : PublicKey) (i rid j : ℕ) (rs : List (Replica p))
      → IsOwn own rs j
      → rid_from p own i rid rs ≡ (i + j) % 2 ^ 64
  unfolding rid_from
  rid_from-own own i rid j [] o = cc (o.there)
  rid_from-own own i rid zero (r ∷ rs) o =
      let same : r ≡ o.replica = cc (o.there) in
      let hit : p.same_key own r.id ≡ true = rw same o.own_key in
      rw hit (
        rid_from-absent own (suc i) (i % 2 ^ 64) rs (λ k s at.
          elim (Bool-cases (p.same_key own s.id)) [
            | inl again ↦
                absurd (let same : suc k ≡ zero = o.only (suc k) s at again in omega arith)
            | inr other ↦ other
          ])
        ∙ omega arith)
  rid_from-own own i rid (suc j) (r ∷ rs) o = elim (Bool-cases (p.same_key own r.id)) [
    | inl again ↦ absurd (let same : zero ≡ suc j = o.only 0 r refl again in omega arith)
    | inr other ↦
        let tail : IsOwn own rs j = record {
          replica = o.replica;
          there = o.there;
          own_key = o.own_key;
          only =
              λ k s at same. let shifted : suc k ≡ suc j = o.only (suc k) s at same in omega arith;
        } in
        rw other (rid_from-own own (suc i) rid j rs tail ∙ ap (λ k. k % 2 ^ 64) (omega arith))
  ]

  pub rid-own :
      (own : PublicKey) (j : ℕ) (rs : List (Replica p))
      → IsOwn own rs j
      → j < 2 ^ 64
      → rid_from p own 0 0 rs ≡ j
  rid-own own j rs o h = rid_from-own own 0 0 j rs o ∙ omega arith

  pub ids_from-up_from :
      (i : ℕ) (rs : List (Replica p))
      → i + length rs < 2 ^ 64
      → ids_from p i rs ≡ up_from i (length rs)
  unfolding ids_from up_from
  ids_from-up_from i [] h = refl
  ids_from-up_from i (r ∷ rs) h =
      let small : i % 2 ^ 64 ≡ i = omega arith in
      rw small (ap (λ l. i ∷ l) (ids_from-up_from (suc i) rs (omega arith)))

  pub new_node-entered :
      (db : p.Db) (priv : SecretKey) (conf : Config p) (c : Consensus (node_env p priv conf))
      → new_consensus
          (node_env p priv conf)
          db
          (rid_from p conf.id 0 0 conf.replicas)
          (ids_from p 0 conf.replicas)
        ≡ ok c
      → new_node p db priv conf ≡ ok (enter_loop (node_env p priv conf) c [])
  unfolding new_node entered
  new_node-entered db priv conf c h = rw h refl
