-- ===== src/Consensus/VoteRule/Votable.antt =====
-- consensus.go, onProposal: the conditions of a vote.
use coded_hotterstuff.Encoding.{encode_uint64}
use coded_hotterstuff.Consensus.Evolves.Steps.{persist_proposal-SameView}
use coded_hotterstuff.Consensus.Chain.{
  update, sync_view, update_prepare, persist_proposal, safe_node,
}
use coded_hotterstuff.Store.{hash_sum, header_hash, get_header}
use coded_hotterstuff.Exec.{◌>>◌, modify, pure, ◌>>=◌, ok}
use coded_hotterstuff.Consensus.Handlers.{
  check_signatures, find_parent, timeout_is_signed, accept_proposal, store_and_vote, send_vote,
  vote_if_safe,
}
use coded_hotterstuff.Consensus.VoteRule.{
  update-SameVoted, sync_view-SameVoted, update_prepare-SameVoted, persist_proposal-SameVoted,
  SameVoted,
}
use coded_hotterstuff.Consensus.Round.{Self}
use coded_hotterstuff.Types.{TimeoutCertificate, Certificate, Header, Proposal}
use coded_hotterstuff.Consensus.State.{sub64, get_leader, when, leader_of, M, Consensus}
use coded_hotterstuff.Env.{Env}
use coded_hotterstuff.Prelude.{
  sym, ℕ, ◌<◌, ◌≡◌, ◌⊎◌, refl, ◌∙◌, Bool, true, false, ◌&&◌, ltb, ◌==◌, if◌then◌else◌, Bool-cases,
  inl, inr, Option, none, some, arith,
}
use coded_hotterstuff.Exec.Moves.{
  then_result, Moves-at, After-result, lift-then, After-lift, After-bind, After-any, After-weaken,
  After,
}

module _ (env : Env) (self : Self env) where
  -- What onProposal does between its last check of a signature and its decision to vote.
  abbrev pub before_vote : Proposal → Header → Certificate → Header → M env (Unit {0})
  before_vote m h cert parent = do
    update_prepare env parent cert
    sync_view env self parent m.timeout
    update env parent
    persist_proposal env h m.payload cert

  -- What holds of a proposal that a replica votes for, which is in the state `c` when it arrives.
  -- `now` is the state in which it decides: the code has brought it there from `c`.
  pub record IsVotable (c : Consensus env) (m : Proposal) : Type 0 where
    pub header : Header
    pub cert : Certificate
    pub parent : Header
    pub leader : ℕ
    pub now : Consensus env
    pub has : (m.header ≡ some header) × (m.parent_cert ≡ some cert)
    pub for_parent : header.parent ≡ cert.block
    pub certified : env.verifier.verify_aggregated header.parent cert.sig ≡ ok true
    pub stored : get_header env c.store header.parent ≡ some parent
    pub is_leader : leader_of c.replicas header.view ≡ ok leader
    pub signed : env.verifier.verify leader (header_hash env header) m.sig ≡ true
    pub later : c.voted < header.view
    pub reached : before_vote m header cert parent c ≡ ok (tt, now)
    pub current : header.view ≡ now.view
    pub safe : safe_node env header now ≡ true

  -- Nothing was voted for, or what was is votable.
  abbrev pub VotesWell : Consensus env → Proposal → Unit {0} → Consensus env → Type 0
  VotesWell c m _ d = (d.voted ≡ c.voted) ⊎ IsVotable c m

  vote_if_safe-VotesWell :
      (c d : Consensus env) (m : Proposal) (h : Header)
      → SameVoted env c d
      → (c.voted < h.view → safe_node env h d ≡ true → IsVotable c m)
      → After (vote_if_safe env self h d) (VotesWell c m)
  unfolding vote_if_safe ◌>>=◌
  vote_if_safe-VotesWell c d m h before votable =
      elim (Bool-cases (ltb d.voted h.view && safe_node env h d)) [
        | inl votes ↦
            let same : d.voted ≡ c.voted = before in
            let v = votable (ground arith) (ground arith) in
            After-weaken (λ _ e. Unit {0}) (VotesWell c m)
              ((if ltb d.voted h.view && safe_node env h d then send_vote env self h else pure tt)
                d)
              (After-any _) (λ _ e _. inr v)
        | inr stays ↦ rw stays (inl before)
      ]

  store_and_vote-VotesWell :
      (c d : Consensus env) (m : Proposal) (h : Header) (cert : Certificate)
      → SameVoted env c d
      → ((e : Consensus env)
          → persist_proposal env h m.payload cert d ≡ ok (tt, e)
          → h.view ≡ e.view
          → c.voted < h.view
          → safe_node env h e ≡ true
          → IsVotable c m)
      → After (store_and_vote env self m h cert d) (VotesWell c m)
  unfolding store_and_vote ◌>>=◌
  store_and_vote-VotesWell c d m h cert before make = elim (Bool-cases (h.view == d.view)) [
    | inr past ↦ rw past (inl before)
    | inl now ↦
        let at_d : h.view ≡ d.view = ground arith in
        let persist = persist_proposal env h m.payload cert in
        rw now (
          After-result (VotesWell c m) persist (λ _. vote_if_safe env self h) d
            λ _ e done.
              let view = Moves-at (persist_proposal-SameView env h m.payload cert) done in
              let voted = Moves-at (persist_proposal-SameVoted env h m.payload cert) done in
              vote_if_safe-VotesWell c e m h (voted ∙ before)
                (λ later safe. make e done (at_d ∙ sym view) later safe))
  ]

  accept_proposal-VotesWell :
      (c : Consensus env) (m : Proposal) (h : Header) (cert : Certificate) (parent : Header)
      → ((e : Consensus env)
          → before_vote m h cert parent c ≡ ok (tt, e)
          → h.view ≡ e.view
          → c.voted < h.view
          → safe_node env h e ≡ true
          → IsVotable c m)
      → After (accept_proposal env self m h cert parent c) (VotesWell c m)
  unfolding accept_proposal
  accept_proposal-VotesWell c m h cert parent make =
      After-result (VotesWell c m) (update_prepare env parent cert) _ c λ _ d p.
        After-result (VotesWell c m) (sync_view env self parent m.timeout) _ d λ _ e q.
          After-result (VotesWell c m) (update env parent) _ e λ _ f r.
            let voted_d = Moves-at (update_prepare-SameVoted env parent cert) p in
            let voted_e = Moves-at (sync_view-SameVoted env self parent m.timeout) q in
            let voted_f = Moves-at (update-SameVoted env parent) r in
            store_and_vote-VotesWell c f m h cert (voted_f ∙ voted_e ∙ voted_d) λ g done. make g (
              then_result (update_prepare env parent cert) _ c p
              ∙ then_result (sync_view env self parent m.timeout) _ d q
              ∙ then_result (update env parent) _ e r
              ∙ done)

  pub timeout_is_signed-stays :
      (h : Header) (t : Option TimeoutCertificate) (c : Consensus env)
      → After (timeout_is_signed env h t c) (λ _ d. d ≡ c)
  unfolding timeout_is_signed pure
  timeout_is_signed-stays h none c = refl
  timeout_is_signed-stays h (some t) c =
      After-lift (λ _ d. d ≡ c)
        (env.verifier.verify_aggregated (hash_sum env (encode_uint64 (sub64 h.view 1))) t.sig) c
        (λ _ _. refl)

  -- The proposal is signed by the leader of its view, and accepted.
  signed-VotesWell :
      (c : Consensus env) (m : Proposal) (h : Header) (cert : Certificate) (parent : Header)
      → m.header ≡ some h
      → m.parent_cert ≡ some cert
      → h.parent ≡ cert.block
      → env.verifier.verify_aggregated h.parent cert.sig ≡ ok true
      → get_header env c.store h.parent ≡ some parent
      → (leader : ℕ) → leader_of c.replicas h.view ≡ ok leader
      → (valid : Bool) → env.verifier.verify leader (header_hash env h) m.sig ≡ valid
      → After (when env valid (accept_proposal env self m h cert parent) c) (VotesWell c m)
  signed-VotesWell c m h cert parent has has' same certified stored leader is_leader false signed =
      unfold pure in inl refl
  signed-VotesWell c m h cert parent has has' same certified stored leader is_leader true signed =
      accept_proposal-VotesWell c m h cert parent λ e reached current later safe. record {
        header = h;
        cert = cert;
        parent = parent;
        leader = leader;
        now = e;
        has = (has, has');
        for_parent = same;
        certified = certified;
        stored = stored;
        is_leader = is_leader;
        signed = signed;
        later = later;
        reached = reached;
        current = current;
        safe = safe;
      }

  pub find_parent-VotesWell :
      (c : Consensus env) (m : Proposal) (h : Header) (cert : Certificate) (found : Option Header)
      → m.header ≡ some h
      → m.parent_cert ≡ some cert
      → h.parent ≡ cert.block
      → env.verifier.verify_aggregated h.parent cert.sig ≡ ok true
      → get_header env c.store h.parent ≡ found
      → After (find_parent env self m h cert found c) (VotesWell c m)
  unfolding find_parent check_signatures modify get_leader ◌>>=◌
  find_parent-VotesWell c m h cert none has has' same certified stored = inl refl
  find_parent-VotesWell c m h cert (some parent) has has' same certified stored =
      After-bind (VotesWell c m) (timeout_is_signed env h m.timeout) _ c (
        After-weaken (λ _ d. d ≡ c) _ (timeout_is_signed env h m.timeout c)
          (timeout_is_signed-stays h m.timeout c) λ ok_timeout d p. rw p (go ok_timeout))
    where
      go :
          (ok_timeout : Bool)
          → After
              (when env ok_timeout
                (do
                  leader ← get_leader env h.view
                  when env
                      (env.verifier.verify leader (header_hash env h) m.sig)
                      (accept_proposal env self m h cert parent))
                c)
              (VotesWell c m)
      go false = inl refl
      go true =
          lift-then {B = Unit {0}} (VotesWell c m) (leader_of c.replicas h.view) c _
            λ leader is_leader.
              signed-VotesWell c m h cert parent has has' same certified stored leader is_leader
                (env.verifier.verify leader (header_hash env h) m.sig) refl
