-- ===== src/Consensus/Round.antt =====
-- consensus.go: sending, the entry into a round, and the new-view message of a round that timed
-- out. A message that the replica sends to itself is handled at once: `self` is that call of Step.
use coded_hotterstuff.Prelude.{
  ℕ, ◌&&◌, Bool, true, false, if◌then◌else◌, ltb, ◌==◌, List, [], ◌∷◌, Option, none, some,
}
use coded_hotterstuff.Exec.{ok, crash, pure, gets, modify, lift, ◌>>=◌, ◌>>◌}
use coded_hotterstuff.Types.{Message, newview, TimeoutCertificate}
use coded_hotterstuff.Encoding.{encode_uint64}
use coded_hotterstuff.Env.{Env}
use coded_hotterstuff.Store.{hash_sum, save_voted}
use coded_hotterstuff.Progress.{add_message, null}
use coded_hotterstuff.Utils.Votes.{reset_votes}
use coded_hotterstuff.Utils.Timeouts.{start_timeouts, reset_timeouts}
use coded_hotterstuff.Consensus.State.{M, when, persist, get_leader, new_timeout, add64, sub64}

-- `if c.timeoutCert != nil && c.timeoutCert.View < c.view-1 { c.timeoutCert = nil }`
abbrev pub release : ℕ → Option TimeoutCertificate → Option TimeoutCertificate
release view none = none
release view (some cert) = if ltb cert.view (sub64 view 1) then none else some cert

module _ (env : Env) where
  open env use {signer}

  abbrev pub Self : Type 0
  Self = Message → M env (Unit {0})

  unfoldable pub deliver : Self → Message → List ℕ → M env (Unit {0})
  deliver self msg [] = pure tt
  deliver self msg (to ∷ ids) = do
    id ← gets (λ c. c.id)
    when env (id == to) (self msg)
    deliver self msg ids

  -- sendMsg: no recipient is a broadcast.
  unfoldable pub send_msg : Self → Message → List ℕ → M env (Unit {0})
  unfolding deliver
  send_msg self msg ids = do
    modify (λ c. record c { progress = add_message msg ids c.progress })
    when env (null ids) (self msg)
    deliver self msg ids

  unfoldable pub reset_timeout : M env (Unit {0})
  unfolding new_timeout
  reset_timeout = modify (λ c. record c { ticks = 0; timeout = new_timeout env c })

  unfoldable pub send_new_view : Self → M env (Unit {0})
  send_new_view self = do
    view ← gets (λ c. c.view)
    leader ← get_leader env view
    sig ← lift (signer.sign (hash_sum env (encode_uint64 (sub64 view 1))))
    id ← gets (λ c. c.id)
    cert ← gets (λ c. c.prepare_cert)
    modify (λ c. record c { voted = sub64 view 1 })
    persist env (λ d. save_voted env d (sub64 view 1))
    send_msg self
        (newview (record { view = sub64 view 1; voter = id; sig = sig; cert = some cert }))
        (leader ∷ [])

  unfoldable pub restart_timeouts : ℕ → M env (Unit {0})
  restart_timeouts view c = elim (start_timeouts view (reset_timeouts c.timeouts)) [
    | ok t ↦ ok (tt, record c { timeouts = t })
    | crash r ↦ crash r
  ]

  -- The two tests of nextRound on the leaders before and after this round.
  unfoldable pub collect_timeouts : ℕ → M env (Unit {0})
  unfolding restart_timeouts
  collect_timeouts view = do
    id ← gets (λ c. c.id)
    before ← get_leader env (sub64 view 1)
    when env (id == before) (modify (λ c. record c { timeouts = reset_timeouts c.timeouts }))
    after ← get_leader env (add64 view 1)
    when env (id == after) (restart_timeouts view)

  -- The leader waits for data.
  unfoldable pub wait_for_data : M env (Unit {0})
  wait_for_data =
      modify (λ c. record c {
        waiting_data = true;
        progress = record c.progress { waiting_data = true };
      })

  unfoldable pub lead_if_leader : ℕ → M env (Unit {0})
  unfolding wait_for_data
  lead_if_leader view = do
    id ← gets (λ c. c.id)
    leader ← get_leader env view
    when env (id == leader) wait_for_data

  -- What nextRound does before it looks at `timedout`.
  unfoldable pub enter_round : M env (Unit {0})
  unfolding reset_timeout collect_timeouts
  enter_round = do
    reset_timeout
    modify (λ c. record c { waiting_data = false; votes = reset_votes c.votes })
    modify (λ c. record c { timeout_cert = release c.view c.timeout_cert })
    view ← gets (λ c. c.view)
    collect_timeouts view

  -- A round that timed out, and was not voted in, is reported to its leader.
  unfoldable pub act : Self → Bool → M env (Unit {0})
  unfolding lead_if_leader
  act self timedout = do
    view ← gets (λ c. c.view)
    voted ← gets (λ c. c.voted)
    if timedout && ltb voted (sub64 view 1) then send_new_view self else lead_if_leader view

  unfoldable pub next_round : Self → Bool → M env (Unit {0})
  next_round self timedout = do enter_round; act self timedout
