-- ===== src/Consensus/Ends/Handlers.antt =====
-- consensus.go: the end of the handlers.
use coded_hotterstuff.Prelude.Bytes.{Bytes}
use coded_hotterstuff.Consensus.State.{Consensus, with_timeouts, with_votes}
use coded_hotterstuff.Utils.Timeouts.{collect_timeout}
use coded_hotterstuff.Prelude.{[], ◌∷◌, none, arith, false, List, some, ℕ, Option}
use coded_hotterstuff.Consensus.Ends.{
  send_msg-Ends, wait_for_data-Ends, step_rules, next_round-false-Ends, IsReal,
}
use coded_hotterstuff.Utils.Votes.{collect_vote}
use coded_hotterstuff.Env.{Env}
use coded_hotterstuff.Exec.Ends.{Ends, Ends-lift, Ends-pure}
use coded_hotterstuff.Exec.{lift}
use coded_hotterstuff.Types.{
  AggregatedSignature, Header, Certificate, Data, TimeoutCertificate, Block, Proposal, NewView,
  Vote, Sync, vote,
}
use coded_hotterstuff.Consensus.Chain.{
  update_prepare, lock, commit_block, update_from, update_parent, update, catch_up, sync_view,
  persist_proposal,
}
use coded_hotterstuff.Consensus.Handlers.{
  send_vote, vote_if_safe, store_and_vote, accept_proposal, timeout_is_signed, check_signatures,
  find_parent, check_certificate, on_proposal, certify, on_vote, certify_timeout, new_view_from,
  on_new_view, sync_full, sync_parts, sync_block, sync_blocks, on_sync,
}
use coded_hotterstuff.Consensus.Round.{Self}

module _ (env : Env) where
  update_prepare-Ends : (h : Header) (cert : Certificate) → Ends (update_prepare env h cert)
  unfolding update_prepare
  update_prepare-Ends h cert = search step_rules depth 8

  lock-Ends : (g : Header) → Ends (lock env g)
  unfolding lock
  lock-Ends g = search step_rules depth 8

  commit_block-Ends : (p g gg : Header) → Ends (commit_block env p g gg)
  unfolding commit_block
  commit_block-Ends p g gg = search step_rules depth 8

  update_from-Ends : (p g : Header) (gg : Option Header) → Ends (update_from env p g gg)
  unfolding update_from
  update_from-Ends p g none = search step_rules
  update_from-Ends p g (some gg) = search (step_rules, lock-Ends, commit_block-Ends)

  update_parent-Ends : (p : Header) (g : Option Header) → Ends (update_parent env p g)
  unfolding update_parent
  update_parent-Ends p none = search step_rules
  update_parent-Ends p (some g) = search (step_rules, update_from-Ends)

  update-Ends : (p : Header) → Ends (update env p)
  unfolding update
  update-Ends p = search (step_rules, update_parent-Ends)

  persist_proposal-Ends :
      (h : Header) (x : Option Data) (cert : Certificate) → Ends (persist_proposal env h x cert)
  unfolding persist_proposal
  persist_proposal-Ends h x cert = search step_rules depth 8

  with_votes-Ends : (v : Vote) → Ends (with_votes env (collect_vote env v))
  unfolding collect_vote
  with_votes-Ends v = record { ends = λ c p. ground arith }

  with_timeouts-Ends : (m : NewView) → Ends (with_timeouts env (collect_timeout env m))
  unfolding collect_timeout
  with_timeouts-Ends m = record { ends = λ c p. ground arith }

module _ (env : Env) (self : Self env) where
  catch_up-Ends : (shown : ℕ) → Ends (catch_up env self shown)
  unfolding catch_up
  catch_up-Ends shown = let next = next_round-false-Ends env self in search step_rules depth 8

  sync_view-Ends : (h : Header) (t : Option TimeoutCertificate) → Ends (sync_view env self h t)
  unfolding sync_view
  sync_view-Ends h none = catch_up-Ends h.view
  sync_view-Ends h (some t) = catch_up-Ends t.view

  certify-Ends : Ends (certify env self)
  unfolding certify
  certify-Ends =
      let next = next_round-false-Ends env self in
      search (step_rules, update_prepare-Ends, sync_view-Ends) depth 10

  pub on_vote-Ends : (v : Vote) → Ends (on_vote env self v)
  unfolding on_vote
  on_vote-Ends v = let all = certify-Ends in search (step_rules, with_votes-Ends) depth 8

  certify_timeout-Ends : (m : NewView) → Ends (certify_timeout env self m)
  unfolding certify_timeout
  certify_timeout-Ends m =
      let next = next_round-false-Ends env self in
      let wait = wait_for_data-Ends env in search (step_rules, sync_view-Ends) depth 10

  new_view_from-Ends :
      (m : NewView) (cert : Certificate) (h : Option Header)
      → Ends (new_view_from env self m cert h)
  unfolding new_view_from
  new_view_from-Ends m cert none = search step_rules
  new_view_from-Ends m cert (some h) =
      search (step_rules, update_prepare-Ends, with_timeouts-Ends, certify_timeout-Ends) depth 8

  pub on_new_view-Ends : (m : NewView) → Ends (on_new_view env self m)
  unfolding on_new_view
  on_new_view-Ends m = search (step_rules, new_view_from-Ends) depth 9

module _ (env : Env) (real : IsReal env) where
  verify-Ends :
      (m : Bytes) (s : Option AggregatedSignature)
      → Ends {S = Consensus env} (lift (env.verifier.verify_aggregated m s))
  verify-Ends m s = Ends-lift _ (real.verify_aggregated m s)

  sync_full-Ends : (h : Header) (cert : Certificate) (x : Data) → Ends (sync_full env h cert x)
  unfolding sync_full
  sync_full-Ends h cert x =
      search (step_rules, verify-Ends, update_prepare-Ends, update-Ends) depth 12

  sync_parts-Ends :
      (h : Option Header) (cert : Option Certificate) (x : Option Data)
      → Ends (sync_parts env h cert x)
  unfolding sync_parts
  sync_parts-Ends none c x = Ends-pure false
  sync_parts-Ends (some h) none x = Ends-pure false
  sync_parts-Ends (some h) (some c) none = Ends-pure false
  sync_parts-Ends (some h) (some c) (some x) = sync_full-Ends h c x

  sync_blocks-Ends : (bs : List Block) → Ends (sync_blocks env bs)
  unfolding sync_blocks sync_block
  sync_blocks-Ends [] = search step_rules
  sync_blocks-Ends (b ∷ bs) =
      let later = sync_blocks-Ends bs in search (step_rules, sync_parts-Ends)

  pub on_sync-Ends : (m : Sync) → Ends (on_sync env m)
  unfolding on_sync
  on_sync-Ends m = sync_blocks-Ends m.blocks

module _ (env : Env) (real : IsReal env) (self : Self env)
    (votes : (v : Vote) → Ends (self (vote v))) where
  send_vote-Ends : (h : Header) → Ends (send_vote env self h)
  unfolding send_vote
  send_vote-Ends h =
      let sign = λ (m : Bytes). Ends-lift {S = Consensus env} (env.signer.sign m) (real.sign m) in
      let cast = λ (v : Vote) (ids : List ℕ). send_msg-Ends env self (vote v) ids (votes v) in
      search (step_rules, sign, cast) depth 10

  store_and_vote-Ends :
      (m : Proposal) (h : Header) (cert : Certificate) → Ends (store_and_vote env self m h cert)
  unfolding store_and_vote vote_if_safe
  store_and_vote-Ends m h cert = search (step_rules, persist_proposal-Ends, send_vote-Ends) depth 10

  accept_proposal-Ends :
      (m : Proposal) (h : Header) (cert : Certificate) (parent : Header)
      → Ends (accept_proposal env self m h cert parent)
  unfolding accept_proposal
  accept_proposal-Ends m h cert parent =
      search (step_rules, update_prepare-Ends, sync_view-Ends, update-Ends, store_and_vote-Ends)

  timeout_is_signed-Ends :
      (h : Header) (t : Option TimeoutCertificate) → Ends (timeout_is_signed env h t)
  unfolding timeout_is_signed
  timeout_is_signed-Ends h none = search step_rules
  timeout_is_signed-Ends h (some t) = search (step_rules, verify-Ends)

  check_signatures-Ends :
      (m : Proposal) (h : Header) (cert : Certificate) (parent : Header)
      → Ends (check_signatures env self m h cert parent)
  unfolding check_signatures
  check_signatures-Ends m h cert parent =
      search (step_rules, timeout_is_signed-Ends, accept_proposal-Ends) depth 8

  find_parent-Ends :
      (m : Proposal) (h : Header) (cert : Certificate) (found : Option Header)
      → Ends (find_parent env self m h cert found)
  unfolding find_parent
  find_parent-Ends m h cert none = search step_rules
  find_parent-Ends m h cert (some parent) = check_signatures-Ends m h cert parent

  check_certificate-Ends :
      (m : Proposal) (h : Header) (cert : Option Certificate)
      → Ends (check_certificate env self m h cert)
  unfolding check_certificate
  check_certificate-Ends m h none = search step_rules
  check_certificate-Ends m h (some cert) =
      search (step_rules, verify-Ends, find_parent-Ends) depth 9

  pub on_proposal-Ends : (m : Proposal) → Ends (on_proposal env self m)
  unfolding on_proposal
  on_proposal-Ends m = search (step_rules, check_certificate-Ends)
