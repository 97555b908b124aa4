-- ===== src/Consensus/Locks/Update.antt =====
-- consensus.go, update: the two-block and the three-block rule.
use coded_hotterstuff.Progress.{add_header}
use coded_hotterstuff.Prelude.{
  true, arith, refl, ◌∙◌, none, inl, inr, ◌&&◌, ◌==◌, ltb, some, Option, Bool-cases, Bool, ◌⊎◌, ◌≡◌,
}
use coded_hotterstuff.Consensus.Chain.{update_from, update_parent, commit_block, update, lock}
use coded_hotterstuff.Exec.Moves.{After-then, After-bind, After, After-weaken, Moves}
use coded_hotterstuff.Store.{decide_tag, set_tag, locked_tag, get_header, header_hash}
use coded_hotterstuff.Types.{Header}
use coded_hotterstuff.Consensus.State.{persist, sub64, Consensus, M}
use coded_hotterstuff.Env.{IsMap, Env}
use coded_hotterstuff.Exec.{modify, ◌>>◌, ◌>>=◌}
use coded_hotterstuff.Consensus.Locks.{
  Scope, Follows, Follows-order, IsCertified, IsLockable, IsCommittable, as_before, SameHeaders,
}
use coded_hotterstuff.Consensus.Locks.Still.{set_tag-Still, Still, Still-Follows, still_rules}

module _ (env : Env) (scope : Scope) where
  pub follows : {A : Type 0} {m : M env A} → Moves (Still env) m → Moves (Follows env scope) m
  follows {m = m} h = record {
    from = λ c.
        After-weaken (λ _ d. Still env c d) (λ _ d. Follows env scope c d) (m c) (h.from c)
          λ a d p. Still-Follows env scope p;
  }

  -- What was certified is so as long as the headers stay.
  pub stays-IsCertified :
      {s t : env.Db} {h : Header}
      → SameHeaders env s t
      → IsCertified env scope s h
      → IsCertified env scope t h
  stays-IsCertified {s} {t} {h} same p = record {
    block = p.block;
    sig = p.sig;
    shown = p.shown;
    checked = p.checked;
    found = found p.found;
  }
    where
      found :
          (header_hash env h ≡ p.block) ⊎ (get_header env s p.block ≡ some h)
          → (header_hash env h ≡ p.block) ⊎ (get_header env t p.block ≡ some h)
      found (inl q) = inl q
      found (inr q) = inr (same p.block ∙ q)

module _ (env : Env) (map : IsMap env) (scope : Scope) where
  lock_from :
      (c : Consensus env) (g : Header)
      → IsLockable env scope c.store c.store g
      → After (lock env g c) (λ _ d. Follows env scope c d)
  unfolding lock ◌>>=◌
  lock_from c g may = elim (Bool-cases (ltb c.locked.view g.view)) [
    | inr stays ↦ rw stays ((Follows-order env scope).refl_at c)
    | inl later ↦ rw later (
        After-then (Follows-order env scope) c (record c { locked = g }) _
          (record { grown = as_before λ k. refl; lock_rule = inr may; commit_rule = inl refl })
          (follows env scope (set_tag-Still env map locked_tag (header_hash env g))))
  ]

  -- What is left to do for a committed block.
  abbrev mark : Header → M env (Unit {0})
  mark gg = do
    persist env (λ d. set_tag env d decide_tag (header_hash env gg))
    modify (λ c. record c { progress = add_header gg true c.progress })

  mark-Still : (gg : Header) → Moves (Still env) (mark gg)
  mark-Still gg = let tag = set_tag-Still env map in search still_rules depth 9

  commit_from :
      (c d : Consensus env) (p g gg : Header)
      → Follows env scope c d
      → ((sub64 p.view g.view ≡ 1) × (sub64 g.view gg.view ≡ 1)
          → IsCommittable env scope c.store d.store gg)
      → After (commit_block env p g gg d) (λ _ e. Follows env scope c e)
  unfolding commit_block
  commit_from c d p g gg before may = elim (Bool-cases (commits d.commit)) [
    | inr stays ↦ unfold ◌>>=◌ in rw stays before
    | inl now ↦
        unfold ◌>>=◌ in
        rw now (
          After-then (Follows-order env scope) c (record d { commit = gg }) (mark gg)
            (record {
              grown = before.grown;
              lock_rule = before.lock_rule;
              commit_rule = inr (may (ground arith, ground arith));
            })
            (follows env scope (mark-Still gg)))
  ]
    where
      commits : Header → Bool
      commits commit =
          sub64 p.view g.view == 1 && sub64 g.view gg.view == 1 && ltb commit.view gg.view

  -- What update does for a certified header.
  pub update-Follows :
      (c : Consensus env) (p : Header)
      → IsCertified env scope c.store p
      → After (update env p c) (λ _ d. Follows env scope c d)
  unfolding update update_parent update_from ◌>>=◌
  update-Follows c p certified = parent (get_header env c.store p.parent) refl
    where
      grandparent :
          (g : Header) (gg : Option Header)
          → get_header env c.store p.parent ≡ some g
          → get_header env c.store g.parent ≡ gg
          → After (update_from env p g gg c) (λ _ d. Follows env scope c d)
      grandparent g none link q = (Follows-order env scope).refl_at c
      grandparent g (some gg) link q =
          After-bind (λ _ d. Follows env scope c d) (lock env g) (λ _. commit_block env p g gg) c
            (After-weaken (λ _ d. Follows env scope c d)
              (λ _ d. After (commit_block env p g gg d) (λ _ e. Follows env scope c e))
              (lock env g c)
              (lock_from c g (record {
                store = c.store;
                grown = as_before λ k. refl;
                kept = as_before λ k. refl;
                child = p;
                certified = certified;
                link = link;
              }))
              λ _ d before. commit_from c d p g gg before λ gaps. record {
                store = c.store;
                grown = as_before λ k. refl;
                kept = before.grown;
                grandchild = p;
                child = g;
                certified = certified;
                links = (link, q);
                gap_free = gaps;
              })

      parent :
          (g : Option Header)
          → get_header env c.store p.parent ≡ g
          → After (update_parent env p g c) (λ _ d. Follows env scope c d)
      parent none link = (Follows-order env scope).refl_at c
      parent (some g) link = grandparent g (get_header env c.store g.parent) link refl
