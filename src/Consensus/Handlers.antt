-- ===== src/Consensus/Handlers.antt =====
-- consensus.go: the handlers of the four messages.
use coded_hotterstuff.Prelude.{
  not, ◌&&◌, Bool, true, false, if◌then◌else◌, ltb, leb, ◌==◌, List, [], ◌∷◌, Option, none, some,
}
use coded_hotterstuff.Prelude.Bytes.{bytes_eq}
use coded_hotterstuff.Exec.{panic, pure, gets, modify, lift, or_crash, ◌>>=◌, ◌>>◌}
use coded_hotterstuff.Types.{
  Header, Certificate, Data, TimeoutCertificate, Block, Proposal, NewView, Vote, Sync, vote,
}
use coded_hotterstuff.Encoding.{encode_uint64}
use coded_hotterstuff.Env.{Env}
use coded_hotterstuff.Store.{
  header_hash, hash_sum, get_header, save_voted, save_certificate, save_block,
}
use coded_hotterstuff.Progress.{add_not_found}
use coded_hotterstuff.Utils.Votes.{start_votes, collect_vote}
use coded_hotterstuff.Utils.Timeouts.{collect_timeout}
use coded_hotterstuff.Consensus.State.{
  M, when, persist, with_votes, with_timeouts, get_leader, add64, sub64,
}
use coded_hotterstuff.Consensus.Round.{Self, send_msg, next_round, wait_for_data}
use coded_hotterstuff.Consensus.Chain.{
  update_prepare, update, sync_view, safe_node, persist_proposal,
}

module _ (env : Env) where
  open env use {signer, verifier}

  unfoldable pub send_vote : Self env → Header → M env (Unit {0})
  send_vote self header = do
    modify (λ c. record c { voted = header.view })
    persist env (λ d. save_voted env d header.view)
    modify (λ c. record c { votes = start_votes env header c.votes })
    sig ← lift (signer.sign (header_hash env header))
    id ← gets (λ c. c.id)
    leader ← get_leader env (add64 header.view 1)
    send_msg env self
        (vote
          (record { block = header_hash env header; view = header.view; voter = id; sig = sig }))
        (leader ∷ [])

  unfoldable pub vote_if_safe : Self env → Header → M env (Unit {0})
  unfolding send_vote
  vote_if_safe self header = do
    voted ← gets (λ c. c.voted)
    safe ← gets (λ c. safe_node env header c)
    when env (ltb voted header.view && safe) (send_vote self header)

  -- onProposal for a proposal of the view that the replica is in.
  unfoldable pub store_and_vote : Self env → Proposal → Header → Certificate → M env (Unit {0})
  unfolding vote_if_safe
  store_and_vote self msg header cert = do
    view ← gets (λ c. c.view)
    when env (header.view == view)
        (do persist_proposal env header msg.payload cert; vote_if_safe self header)

  -- onProposal after the last signature was checked.
  unfoldable pub accept_proposal :
      Self env → Proposal → Header → Certificate → Header → M env (Unit {0})
  unfolding store_and_vote
  accept_proposal self msg header cert parent = do
    update_prepare env parent cert
    sync_view env self parent msg.timeout
    update env parent
    store_and_vote self msg header cert

  -- `msg.Timeout == nil`, or its signature is of the view before the proposal's.
  unfoldable pub timeout_is_signed : Header → Option TimeoutCertificate → M env Bool
  timeout_is_signed header none = pure true
  timeout_is_signed header (some tcert) =
      lift
        (verifier.verify_aggregated (hash_sum env (encode_uint64 (sub64 header.view 1))) tcert.sig)

  unfoldable pub check_signatures :
      Self env → Proposal → Header → Certificate → Header → M env (Unit {0})
  unfolding timeout_is_signed accept_proposal
  check_signatures self msg header cert parent = do
    signed ← timeout_is_signed header msg.timeout
    when env signed (do
      leader ← get_leader env header.view
      when env (verifier.verify leader (header_hash env header) msg.sig)
          (accept_proposal self msg header cert parent))

  unfoldable pub find_parent :
      Self env → Proposal → Header → Certificate → Option Header → M env (Unit {0})
  unfolding check_signatures
  find_parent self msg header cert none =
      modify
        (λ c. record c { progress = add_not_found header.parent_view header.parent c.progress })
  find_parent self msg header cert (some parent) = check_signatures self msg header cert parent

  unfoldable pub check_certificate :
      Self env → Proposal → Header → Option Certificate → M env (Unit {0})
  unfolding find_parent
  check_certificate self msg header none = pure tt
  check_certificate self msg header (some cert) =
      if not (bytes_eq header.parent cert.block) then pure tt else do
        valid ← lift (verifier.verify_aggregated header.parent cert.sig)
        d ← gets (λ c. c.store)
        when env valid (find_parent self msg header cert (get_header env d header.parent))

  -- The view of a nil Header is read at once.
  unfoldable pub on_proposal : Self env → Proposal → M env (Unit {0})
  unfolding check_certificate
  on_proposal self msg = do
    header ← or_crash panic msg.header
    check_certificate self msg header msg.parent_cert

  -- onVote once there is a majority.
  unfoldable pub certify : Self env → M env (Unit {0})
  certify self = do
    found ← gets (λ c. c.votes.cert)
    cert ← or_crash panic found
    persist env (λ d. save_certificate env d cert)
    leaf ← gets (λ c. c.votes.header)
    header ← or_crash panic leaf
    update_prepare env header cert
    sync_view env self header none
    next_round env self false

  unfoldable pub on_vote : Self env → Vote → M env (Unit {0})
  unfolding certify
  on_vote self v = do
    id ← gets (λ c. c.id)
    leader ← get_leader env (add64 v.view 1)
    when env (id == leader)
        (do done ← with_votes env (collect_vote env v); when env done (certify self))

  -- onNewView once there is a majority.
  unfoldable pub certify_timeout : Self env → NewView → M env (Unit {0})
  certify_timeout self msg = do
    view ← gets (λ c. c.view)
    modify (λ c. record c { timeout_cert = c.timeouts.cert })
    prepare ← gets (λ c. c.prepare)
    tcert ← gets (λ c. c.timeouts.cert)
    sync_view env self prepare tcert
    if view == msg.view then next_round env self false else wait_for_data env

  unfoldable pub new_view_from : Self env → NewView → Certificate → Option Header → M env (Unit {0})
  unfolding certify_timeout
  new_view_from self msg cert none = pure tt
  new_view_from self msg cert (some header) = do
    update_prepare env header cert
    done ← with_timeouts env (collect_timeout env msg)
    when env done (certify_timeout self msg)

  -- The block of a nil Cert is read by the leader, for its log.
  unfoldable pub on_new_view : Self env → NewView → M env (Unit {0})
  unfolding new_view_from
  on_new_view self msg = do
    id ← gets (λ c. c.id)
    leader ← get_leader env (add64 msg.view 1)
    when env (id == leader) (do
      cert ← or_crash panic msg.cert
      d ← gets (λ c. c.store)
      new_view_from self msg cert (get_header env d cert.block))

  -- syncBlock on a block whose pointers are not nil.
  unfoldable pub sync_full : Header → Certificate → Data → M env Bool
  sync_full header cert payload = do
    commit ← gets (λ c. c.commit)
    if leb header.view commit.view then pure true else do
      valid ← lift (verifier.verify_aggregated (header_hash env header) cert.sig)
      if not valid then pure false else do
        persist env (λ d. save_block env d header cert payload)
        update_prepare env header cert
        update env header
        pure true

  unfoldable pub sync_parts : Option Header → Option Certificate → Option Data → M env Bool
  unfolding sync_full
  sync_parts (some header) (some cert) (some payload) = sync_full header cert payload
  sync_parts _ _ _ = pure false

  unfoldable pub sync_block : Block → M env Bool
  unfolding sync_parts
  sync_block b = sync_parts b.header b.cert b.payload

  unfoldable pub sync_blocks : List Block → M env (Unit {0})
  unfolding sync_block
  sync_blocks [] = pure tt
  sync_blocks (b ∷ bs) = do good ← sync_block b; when env good (sync_blocks bs)

  unfoldable pub on_sync : Sync → M env (Unit {0})
  unfolding sync_blocks
  on_sync msg = sync_blocks msg.blocks
