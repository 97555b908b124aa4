-- ===== src/Consensus/Locks/Proposals.antt =====
-- consensus.go, onProposal: the locked and the committed block.
use coded_hotterstuff.Consensus.VoteRule.Votable.{timeout_is_signed-stays}
use coded_hotterstuff.Consensus.Chain.{update, sync_view, update_prepare}
use coded_hotterstuff.Prelude.Bytes.{bytes_eq_iff, bytes_eq}
use coded_hotterstuff.Store.{get_header, header_hash}
use coded_hotterstuff.Prelude.{
  none, inr, false, inl, true, Bool-cases, ℕ, refl, some, Bool, ◌≡◌, Option,
}
use coded_hotterstuff.Consensus.State.{leader_of, when, get_leader, Consensus}
use coded_hotterstuff.Consensus.Handlers.{
  timeout_is_signed, vote_if_safe, accept_proposal, find_parent, on_proposal, check_signatures,
  store_and_vote, check_certificate,
}
use coded_hotterstuff.Exec.Moves.{
  After-trans, After-weaken, lift-then, After-moves, After, After-or_crash, moves_rules, After-bind,
  IsPreorder, Moves,
}
use coded_hotterstuff.Consensus.Round.{Self}
use coded_hotterstuff.Env.{IsMap, Env}
use coded_hotterstuff.Exec.{ok, pure, modify, or_crash, panic, ◌>>=◌}
use coded_hotterstuff.Types.{Certificate, Header, Proposal, Vote, vote}
use coded_hotterstuff.Consensus.Locks.{Follows, Follows-order, IsCertified, of_proposal, as_before}
use coded_hotterstuff.Consensus.Locks.Still.{
  sync_view-Still, update_prepare-Still, Still, Still-order, Still-Follows,
}
use coded_hotterstuff.Consensus.Locks.Update.{follows, stays-IsCertified, update-Follows}
use coded_hotterstuff.Consensus.Locks.Steps.{send_vote-Still, persist_proposal-Follows}

module _ (env : Env) (map : IsMap env) (self : Self env)
    (quiet : (v : Vote) → Moves (Still env) (self (vote v))) (m : Proposal) where
  abbrev pub Rule : Consensus env → Consensus env → Type 0
  Rule = Follows env (of_proposal m.header m.parent_cert)

  order : IsPreorder Rule
  order = Follows-order env (of_proposal m.header m.parent_cert)

  vote_if_safe-Follows : (h : Header) → Moves Rule (vote_if_safe env self h)
  unfolding vote_if_safe
  vote_if_safe-Follows h =
      let out =
        follows env (of_proposal m.header m.parent_cert) (send_vote-Still env map self h quiet) in
      search (moves_rules, order) depth 9

  store_and_vote-Follows :
      (h : Header) (cert : Certificate)
      → m.header ≡ some h
      → Moves Rule (store_and_vote env self m h cert)
  unfolding store_and_vote
  store_and_vote-Follows h cert has =
      let stored =
        persist_proposal-Follows env map (of_proposal m.header m.parent_cert) h m.payload cert
          has in
      let votes = vote_if_safe-Follows h in search (moves_rules, order) depth 9

  accept_proposal-Follows :
      (c : Consensus env) (h : Header) (cert : Certificate) (parent : Header)
      → m.header ≡ some h
      → IsCertified env (of_proposal m.header m.parent_cert) c.store parent
      → After (accept_proposal env self m h cert parent c) (λ _ d. Rule c d)
  unfolding accept_proposal
  accept_proposal-Follows c h cert parent has certified =
      After-moves (Still-order env) (λ _ d. Rule c d) (update_prepare env parent cert) _ c c
        (update_prepare-Still env map parent cert) ((Still-order env).refl_at c)
        λ _ d p.
          After-moves (Still-order env) (λ _ d. Rule c d) (sync_view env self parent m.timeout) _ c
            d (sync_view-Still env map self parent m.timeout) p
            λ _ e q.
              After-bind (λ _ d. Rule c d) (update env parent) _ e
                (After-weaken (λ _ f. Rule e f)
                  (λ _ f. After (store_and_vote env self m h cert f) (λ _ d. Rule c d))
                  (update env parent e)
                  (update-Follows env map (of_proposal m.header m.parent_cert) e parent (
                    stays-IsCertified env (of_proposal m.header m.parent_cert) q.headers certified))
                  λ _ f r.
                    After-trans order (store_and_vote env self m h cert f)
                      (order.trans_at c e f
                        (Still-Follows env (of_proposal m.header m.parent_cert) q) r)
                      ((store_and_vote-Follows h cert has).from f))

  signed-Follows :
      (c : Consensus env) (h : Header) (cert : Certificate) (parent : Header)
      → m.header ≡ some h
      → IsCertified env (of_proposal m.header m.parent_cert) c.store parent
      → After (check_signatures env self m h cert parent c) (λ _ d. Rule c d)
  unfolding check_signatures get_leader ◌>>=◌ pure
  signed-Follows c h cert parent has certified =
      After-bind (λ _ d. Rule c d) (timeout_is_signed env h m.timeout) _ c
        (After-weaken (λ _ d. d ≡ c) _ (timeout_is_signed env h m.timeout c)
          (timeout_is_signed-stays env self h m.timeout c) λ in_time d p. rw p (go in_time))
    where
      checked :
          (leader : ℕ) (valid : Bool)
          → After (when env valid (accept_proposal env self m h cert parent) c) (λ _ d. Rule c d)
      checked leader false = order.refl_at c
      checked leader true = accept_proposal-Follows c h cert parent has certified

      go :
          (in_time : Bool)
          → After
              (when env in_time
                (do
                  leader ← get_leader env h.view
                  when env
                      (env.verifier.verify leader (header_hash env h) m.sig)
                      (accept_proposal env self m h cert parent))
                c)
              (λ _ d. Rule c d)
      go false = order.refl_at c
      go true =
          lift-then {B = Unit {0}} (λ _ d. Rule c d) (leader_of c.replicas h.view) c _
            λ leader is_leader.
              checked leader (env.verifier.verify leader (header_hash env h) m.sig)

  find_parent-Follows :
      (c : Consensus env) (h : Header) (cert : Certificate) (found : Option Header)
      → m.header ≡ some h
      → m.parent_cert ≡ some cert
      → h.parent ≡ cert.block
      → env.verifier.verify_aggregated h.parent cert.sig ≡ ok true
      → get_header env c.store h.parent ≡ found
      → After (find_parent env self m h cert found c) (λ _ d. Rule c d)
  unfolding find_parent modify
  find_parent-Follows c h cert none has has' same checked stored = record {
    grown = as_before λ k. refl;
    lock_rule = inl refl;
    commit_rule = inl refl;
  }
  find_parent-Follows c h cert (some parent) has has' same checked stored =
      signed-Follows c h cert parent has (record {
        block = h.parent;
        sig = cert.sig;
        shown = (cert, has', same, refl);
        checked = checked;
        found = inr stored;
      })

  verified-Follows :
      (c : Consensus env) (h : Header) (cert : Certificate) (valid : Bool)
      → m.header ≡ some h
      → m.parent_cert ≡ some cert
      → h.parent ≡ cert.block
      → env.verifier.verify_aggregated h.parent cert.sig ≡ ok valid
      → After
          (when env valid (find_parent env self m h cert (get_header env c.store h.parent)) c)
          (λ _ d. Rule c d)
  verified-Follows c h cert false has has' same checked = unfold pure in order.refl_at c
  verified-Follows c h cert true has has' same checked =
      find_parent-Follows c h cert (get_header env c.store h.parent) has has' same checked refl

  check_certificate-Follows :
      (c : Consensus env) (h : Header) (found : Option Certificate)
      → m.header ≡ some h
      → m.parent_cert ≡ found
      → After (check_certificate env self m h found c) (λ _ d. Rule c d)
  unfolding check_certificate ◌>>=◌ pure
  check_certificate-Follows c h none has has' = order.refl_at c
  check_certificate-Follows c h (some cert) has has' =
      elim (Bool-cases (bytes_eq h.parent cert.block)) [
        | inr other ↦ rw other (order.refl_at c)
        | inl same ↦ rw same (
            lift-then {B = Unit {0}} (λ _ d. Rule c d)
              (env.verifier.verify_aggregated h.parent cert.sig) c _
              λ valid checked.
                verified-Follows c h cert valid has has' ((bytes_eq_iff h.parent cert.block).0 same)
                  checked)
      ]

  pub on_proposal-Follows : Moves Rule (on_proposal env self m)
  unfolding on_proposal
  on_proposal-Follows = record {
    from = λ c.
        After-bind (λ _ d. Rule c d) (or_crash panic m.header)
          (λ h. check_certificate env self m h m.parent_cert) c
          (After-or_crash
            (λ h d. After (check_certificate env self m h m.parent_cert d) (λ _ e. Rule c e)) panic
            m.header c λ h has. check_certificate-Follows c h m.parent_cert has refl);
  }
