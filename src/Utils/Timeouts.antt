-- ===== src/Utils/Timeouts.antt =====
-- utils.go: Timeouts. The map of voters is a list without repetitions.
pub mod Certified
pub mod Runs
use coded_hotterstuff.Prelude.{
  ℕ, Bool, false, not, leb, ◌==◌, if◌then◌else◌, List, [], ◌∷◌, length, Option, none, some,
}
use coded_hotterstuff.Exec.{Outcome, ok, crash, panic}
use coded_hotterstuff.Types.{TimeoutCertificate, AggregatedSignature, NewView}
use coded_hotterstuff.Encoding.{encode_uint64}
use coded_hotterstuff.Env.{Env}
use coded_hotterstuff.Store.{hash_sum}
use coded_hotterstuff.Utils.Votes.{exists, new_signature}

pub record Timeouts : Type 0 where
  pub view : ℕ
  pub majority : ℕ
  pub received : List ℕ
  pub cert : Option TimeoutCertificate

unfoldable pub new_timeouts : ℕ → Timeouts
new_timeouts majority = record { view = 0; majority = majority; received = []; cert = none }

-- Start panics unless Reset was called before.
unfoldable pub start_timeouts : ℕ → Timeouts → Outcome Timeouts
start_timeouts view t =
    if not (t.view == 0)
    then crash panic
    else ok
        (record t { view = view; cert = some (record { view = view; sig = some new_signature }) })

unfoldable pub reset_timeouts : Timeouts → Timeouts
reset_timeouts t = record t { view = 0; received = []; cert = none }

module _ (env : Env) where
  open env use {verifier}

  -- Merge through `t.Cert.Sig`: a nil pointer on the way panics.
  unfoldable pub merge_timeout :
      Option TimeoutCertificate
      → Option AggregatedSignature
      → NewView
      → Timeouts
      → Outcome (Bool × Timeouts)
  merge_timeout none s nview t = crash panic
  merge_timeout (some cert) none nview t = crash panic
  merge_timeout (some cert) (some sig) nview t =
      let received = nview.voter ∷ t.received in
      ok (
        leb t.majority (length received),
        record t {
          received = received;
          cert = some (record cert { sig = some (verifier.merge sig nview.voter nview.sig) });
        },
      )

  unfoldable pub cert_sig : Option TimeoutCertificate → Option AggregatedSignature
  cert_sig none = none
  cert_sig (some cert) = cert.sig

  -- Timeouts.Collect
  unfoldable pub collect_timeout : NewView → Timeouts → Outcome (Bool × Timeouts)
  unfolding merge_timeout cert_sig exists
  collect_timeout nview t =
      if t.view == 0
      then ok (false, t)
      else if not (t.view == nview.view)
      then ok (false, t)
      else if exists t.received nview.voter
      then ok (false, t)
      else if not (verifier.verify nview.voter (hash_sum env (encode_uint64 nview.view)) nview.sig)
      then ok (false, t)
      else merge_timeout t.cert (cert_sig t.cert) nview t
