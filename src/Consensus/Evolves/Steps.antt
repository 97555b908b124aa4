-- ===== src/Consensus/Evolves/Steps.antt =====
-- consensus.go, onProposal, onVote and onNewView: `Evolves` for the handlers.
use coded_hotterstuff.Store.Laws.{save_certificate-SameCounters}
use coded_hotterstuff.Store.{save_certificate}
use coded_hotterstuff.Consensus.Evolves.Rounds.{
  wait_for_data-Keeps, next_round-Keeps, sync_view-Keeps,
}
use coded_hotterstuff.Progress.{add_not_found}
use coded_hotterstuff.Consensus.Evolves.Voting.{send_vote-from}
use coded_hotterstuff.Consensus.Handlers.{
  certify, on_new_view, on_vote, timeout_is_signed, on_proposal, check_signatures,
  check_certificate, certify_timeout, accept_proposal, find_parent, new_view_from, send_vote,
  store_and_vote, vote_if_safe,
}
use coded_hotterstuff.Consensus.Evolves.Frame.{rest-Keeps, persist-Keeps, Keeps}
use coded_hotterstuff.Types.{
  Vote, TimeoutCertificate, NewView, Proposal, Certificate, Message, Data, Header,
}
use coded_hotterstuff.Consensus.Round.{Self}
use coded_hotterstuff.Consensus.Chain.{safe_node, persist_proposal}
use coded_hotterstuff.Consensus.State.{persist, Consensus}
use coded_hotterstuff.Env.{IsMap, Env}
use coded_hotterstuff.Prelude.{
  ◌≡◌, refl, ◌∙◌, false, ◌&&◌, ltb, ◌==◌, Bool-cases, inl, inr, Option, none, some, arith,
}
use coded_hotterstuff.Exec.{Reason, ok, crash, modify, ◌>>=◌}
use coded_hotterstuff.Exec.Moves.{
  After, Moves, IsPreorder, After-trans, After-bind, After-both, After-weaken, moves_rules,
}
use coded_hotterstuff.Consensus.Evolves.{Evolves, Evolves-order}
use coded_hotterstuff.Consensus.Evolves.Blocks.{update-Keeps, persist_proposal-Keeps, evolves_rules}

module _ (env : Env) where
  abbrev pub SameView : Consensus env → Consensus env → Type 0
  SameView c d = d.view ≡ c.view

  pub SameView-order : IsPreorder SameView
  SameView-order = record { refl_at = λ c. refl; trans_at = λ c d e p q. q ∙ p }

  persist-SameView : (f : env.Db → Option env.Db) → Moves SameView (persist env f)
  unfolding persist
  persist-SameView f = record { from = λ c. go c (f c.store) }
    where
      go :
          (c : Consensus env) (o : Option env.Db)
          → After
              (elim o [ none ↦ crash Reason.fatal | some d ↦ ok (tt, record c { store = d }) ])
              (λ _ d. SameView c d)
      go c none = tt
      go c (some d) = refl

  pub persist_proposal-SameView :
      (h : Header) (x : Option Data) (cert : Certificate)
      → Moves SameView (persist_proposal env h x cert)
  unfolding persist_proposal
  persist_proposal-SameView h x cert = search (moves_rules, SameView-order, persist-SameView)

module _ (env : Env) (map : IsMap env) (self : Self env)
    (keeps : (m : Message) → Keeps env map (self m)) where
  vote_if_safe-from :
      (h : Header) (c d : Consensus env)
      → Evolves env c d
      → h.view ≡ d.view
      → After (vote_if_safe env self h d) (λ _ e. Evolves env c e)
  unfolding vote_if_safe ◌>>=◌
  vote_if_safe-from h c d before now = elim (Bool-cases (ltb d.voted h.view && safe_node env h d)) [
    | inl later ↦ rw later (
        After-trans (Evolves-order env) (send_vote env self h d) before
          (send_vote-from env map self keeps h d (ground arith) now))
    | inr stays ↦ rw stays before
  ]

  store_and_vote-Keeps :
      (msg : Proposal) (h : Header) (cert : Certificate)
      → Keeps env map (store_and_vote env self msg h cert)
  unfolding store_and_vote ◌>>=◌
  store_and_vote-Keeps msg h cert = record {
    from = λ c. elim (Bool-cases (h.view == c.view)) [
      | inl now ↦ rw now (
          After-bind (λ _ d. Evolves env c d) (persist_proposal env h msg.payload cert)
            (λ _. vote_if_safe env self h) c
            (After-weaken (λ _ d. Evolves env c d × SameView env c d)
              (λ _ d. After (vote_if_safe env self h d) (λ _ e. Evolves env c e))
              (persist_proposal env h msg.payload cert c)
              (After-both (λ _ d. Evolves env c d) (λ _ d. SameView env c d)
                (persist_proposal env h msg.payload cert c)
                ((persist_proposal-Keeps env map h msg.payload cert).from c)
                ((persist_proposal-SameView env h msg.payload cert).from c))
              (λ _ d p. vote_if_safe-from h c d p.0 (ground arith))))
      | inr past ↦ rw past ((Evolves-order env).refl_at c)
    ];
  }

  accept_proposal-Keeps :
      (msg : Proposal) (h : Header) (cert : Certificate) (parent : Header)
      → Keeps env map (accept_proposal env self msg h cert parent)
  unfolding accept_proposal
  accept_proposal-Keeps msg h cert parent =
      let sync = sync_view-Keeps env map self keeps parent msg.timeout in
      let chain = update-Keeps env map parent in search (evolves_rules, store_and_vote-Keeps)

  timeout_is_signed-Keeps :
      (h : Header) (t : Option TimeoutCertificate) → Keeps env map (timeout_is_signed env h t)
  unfolding timeout_is_signed
  timeout_is_signed-Keeps h none = search evolves_rules
  timeout_is_signed-Keeps h (some t) = search evolves_rules

  check_signatures-Keeps :
      (msg : Proposal) (h : Header) (cert : Certificate) (parent : Header)
      → Keeps env map (check_signatures env self msg h cert parent)
  unfolding check_signatures
  check_signatures-Keeps msg h cert parent =
      let accept = accept_proposal-Keeps msg h cert parent in
      search (evolves_rules, timeout_is_signed-Keeps) depth 7

  find_parent-Keeps :
      (msg : Proposal) (h : Header) (cert : Certificate) (found : Option Header)
      → Keeps env map (find_parent env self msg h cert found)
  unfolding find_parent add_not_found
  find_parent-Keeps msg h cert none = rest-Keeps env map _ _ _ _ _ _ _ (λ c. refl)
  find_parent-Keeps msg h cert (some parent) = check_signatures-Keeps msg h cert parent

  check_certificate-Keeps :
      (msg : Proposal) (h : Header) (cert : Option Certificate)
      → Keeps env map (check_certificate env self msg h cert)
  unfolding check_certificate
  check_certificate-Keeps msg h none = search evolves_rules
  check_certificate-Keeps msg h (some cert) = search (evolves_rules, find_parent-Keeps) depth 9

  pub on_proposal-Keeps : (msg : Proposal) → Keeps env map (on_proposal env self msg)
  unfolding on_proposal
  on_proposal-Keeps msg = search (evolves_rules, check_certificate-Keeps)

  certify-Keeps : Keeps env map (certify env self)
  unfolding certify
  certify-Keeps =
      let save = λ (cert : Certificate).
        persist-Keeps env map (λ d. save_certificate env d cert)
          (λ d e p. save_certificate-SameCounters env map d cert e p) in
      let sync = sync_view-Keeps env map self keeps in
      let next = next_round-Keeps env map self keeps false in
      search (evolves_rules, save, sync) depth 9

  pub on_vote-Keeps : (v : Vote) → Keeps env map (on_vote env self v)
  unfolding on_vote
  on_vote-Keeps v = let all = certify-Keeps in search evolves_rules depth 8

  certify_timeout-Keeps : (msg : NewView) → Keeps env map (certify_timeout env self msg)
  unfolding certify_timeout
  certify_timeout-Keeps msg =
      let adopt : Keeps env map (modify (λ c. record c { timeout_cert = c.timeouts.cert })) =
        rest-Keeps env map _ _ _ _ _ _ _ (λ c. refl) in
      let sync = sync_view-Keeps env map self keeps in
      let next = next_round-Keeps env map self keeps false in
      let wait = wait_for_data-Keeps env map in search (evolves_rules, sync) depth 9

  new_view_from-Keeps :
      (msg : NewView) (cert : Certificate) (found : Option Header)
      → Keeps env map (new_view_from env self msg cert found)
  unfolding new_view_from
  new_view_from-Keeps msg cert none = search evolves_rules
  new_view_from-Keeps msg cert (some h) = search (evolves_rules, certify_timeout-Keeps) depth 7

  pub on_new_view-Keeps : (msg : NewView) → Keeps env map (on_new_view env self msg)
  unfolding on_new_view
  on_new_view-Keeps msg = search (evolves_rules, new_view_from-Keeps) depth 9
