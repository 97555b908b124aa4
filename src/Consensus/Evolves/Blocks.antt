-- ===== src/Consensus/Evolves/Blocks.antt =====
-- consensus.go, updatePrepare, update and persistProposal: the three remembered blocks and `Evolves`.
use coded_hotterstuff.Store.{save_certificate, header_hash, save_data, save_header}
use coded_hotterstuff.Exec.Moves.{After, moves_rules}
use coded_hotterstuff.Prelude.{
  none, some, Option, refl, Bool, ltb, ◌==◌, ◌&&◌, Bool-cases, inl, inr, arith,
}
use coded_hotterstuff.Exec.{◌>>=◌}
use coded_hotterstuff.Types.{Data, Header, Certificate}
use coded_hotterstuff.Env.{Env, IsMap}
use coded_hotterstuff.Store.Laws.{
  save_certificate-SameCounters, save_data-SameCounters, save_header-SameCounters,
  set_tag-SameCounters,
}
use coded_hotterstuff.Progress.{add_header}
use coded_hotterstuff.Consensus.State.{sub64}
use coded_hotterstuff.Consensus.Chain.{
  persist_proposal, update, update_from, update_parent, update_prepare, lock, commit_block,
}
use coded_hotterstuff.Consensus.Evolves.{Evolves, Evolves-order}
use coded_hotterstuff.Consensus.Evolves.Frame.{
  with_timeouts-Keeps, persist-Keeps, with_votes-Keeps, get_leader-Keeps, Keeps, Evolves-quiet,
  After-persist, persist-then,
}

module _ (env : Env) (map : IsMap env) where
  -- A later block is adopted, with its tag in the store.
  pub update_prepare-Keeps :
      (h : Header) (cert : Certificate) → Keeps env map (update_prepare env h cert)
  unfolding update_prepare ◌>>=◌ add_header
  update_prepare-Keeps h cert = record {
    from = λ c. elim (Bool-cases (ltb c.prepare.view h.view)) [
      | inl later ↦ rw later (
          persist-then env map (λ _ d. Evolves env c d) _ _ _
            λ d p.
              Evolves-quiet env map c _ refl refl refl refl refl (ground arith) (omega arith)
                (omega arith) (set_tag-SameCounters env map c.store _ _ d p))
      | inr stays ↦ rw stays ((Evolves-order env).refl_at c)
    ];
  }

  pub lock-Keeps : (g : Header) → Keeps env map (lock env g)
  unfolding lock ◌>>=◌
  lock-Keeps g = record {
    from = λ c. elim (Bool-cases (ltb c.locked.view g.view)) [
      | inl later ↦ rw later (
          After-persist env map (λ _ d. Evolves env c d) _ _
            λ d p.
              Evolves-quiet env map c _ refl refl refl refl refl (omega arith) (ground arith)
                (omega arith) (set_tag-SameCounters env map c.store _ _ d p))
      | inr stays ↦ rw stays ((Evolves-order env).refl_at c)
    ];
  }

  pub commit_block-Keeps : (p g gg : Header) → Keeps env map (commit_block env p g gg)
  unfolding commit_block ◌>>=◌ add_header
  commit_block-Keeps p g gg = record {
    from = λ c. elim (Bool-cases (commits c.commit)) [
      | inl later ↦ rw later (
          persist-then env map (λ _ d. Evolves env c d) _ _ _
            λ d q.
              Evolves-quiet env map c _ refl refl refl refl refl (omega arith) (omega arith)
                (ground arith) (set_tag-SameCounters env map c.store _ _ d q))
      | inr stays ↦ rw stays ((Evolves-order env).refl_at c)
    ];
  }
    where
      commits : Header → Bool
      commits commit =
          sub64 p.view g.view == 1 && sub64 g.view gg.view == 1 && ltb commit.view gg.view

-- The rules that `search` builds a proof from.
pub ruleset evolves_rules = (
  moves_rules, Evolves-order, get_leader-Keeps, with_votes-Keeps, with_timeouts-Keeps,
  update_prepare-Keeps,
)

module _ (env : Env) (map : IsMap env) where
  update_from-Keeps : (p g : Header) (gg : Option Header) → Keeps env map (update_from env p g gg)
  unfolding update_from
  update_from-Keeps p g none = search evolves_rules
  update_from-Keeps p g (some gg) =
      let locks = lock-Keeps env map g in
      let commits = commit_block-Keeps env map p g gg in search evolves_rules

  update_parent-Keeps : (p : Header) (g : Option Header) → Keeps env map (update_parent env p g)
  unfolding update_parent
  update_parent-Keeps p none = search evolves_rules
  update_parent-Keeps p (some g) = search (evolves_rules, update_from-Keeps)

  pub update-Keeps : (p : Header) → Keeps env map (update env p)
  unfolding update
  update-Keeps p = search (evolves_rules, update_parent-Keeps)

  pub persist_proposal-Keeps :
      (h : Header) (x : Option Data) (cert : Certificate)
      → Keeps env map (persist_proposal env h x cert)
  unfolding persist_proposal
  persist_proposal-Keeps h x cert =
      let header =
        persist-Keeps env map (λ d. save_header env d h)
          (λ d e p. save_header-SameCounters env map d h e p) in
      let payload = λ (y : Data).
        persist-Keeps env map (λ d. save_data env d (header_hash env h) y)
          (λ d e p. save_data-SameCounters env map d _ y e p) in
      let certificate =
        persist-Keeps env map (λ d. save_certificate env d cert)
          (λ d e p. save_certificate-SameCounters env map d cert e p) in
      search (evolves_rules, payload)
