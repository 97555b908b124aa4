-- ===== src/Consensus/State.antt =====
-- consensus.go: the struct `consensus`, and the small actions that its methods are made of.
-- Logging is left out: the model is of a replica whose loggers are set.
use coded_hotterstuff.Prelude.{
  ℕ, ◌+◌, ◌-◌, ◌%◌, ◌^◌, Bool, if◌then◌else◌, leb, List, length, Option, none, some, get_elem?,
}
use coded_hotterstuff.Exec.{Exec, Outcome, ok, crash, panic, fatal, pure, lift}
use coded_hotterstuff.Types.{Header, Certificate, TimeoutCertificate}
use coded_hotterstuff.Env.{Env}
use coded_hotterstuff.Progress.{Progress}
use coded_hotterstuff.Utils.Votes.{Votes}
use coded_hotterstuff.Utils.Timeouts.{Timeouts}

-- `ticks` and `timeout` are ints, given by their 64 bits. The pointers `prepare`, `locked`,
-- `commit` and `prepareCert` are never nil.
pub record Consensus (env : Env) : Type 0 where
  pub store : env.Db
  pub ticks : ℕ
  pub timeout : ℕ
  pub id : ℕ
  pub replicas : List ℕ
  pub votes : Votes
  pub timeouts : Timeouts
  pub view : ℕ
  pub voted : ℕ
  pub prepare : Header
  pub locked : Header
  pub commit : Header
  pub prepare_cert : Certificate
  pub timeout_cert : Option TimeoutCertificate
  pub progress : Progress
  pub waiting_data : Bool

-- Sums and differences of uint64s wrap.
abbrev pub add64 : ℕ → ℕ → ℕ
add64 a b = (a + b) % 2 ^ 64

abbrev pub sub64 : ℕ → ℕ → ℕ
sub64 a b = (a + 2 ^ 64 - b) % 2 ^ 64

module _ (env : Env) where
  abbrev pub M : Type 0 → Type 0
  M A = Exec (Consensus env) A

  abbrev pub when : Bool → M (Unit {0}) → M (Unit {0})
  when b m = if b then m else pure tt

  -- A write to the store; its error ends the process.
  unfoldable pub persist : (env.Db → Option env.Db) → M (Unit {0})
  persist f c = elim (f c.store) [ none ↦ crash fatal | some d ↦ ok (tt, record c { store = d }) ]

  -- An action of a part of the state.
  abbrev pub with_votes : (Votes → Outcome (Bool × Votes)) → M Bool
  with_votes f c = elim (f c.votes) [
    | ok (b, v) ↦ ok (b, record c { votes = v })
    | crash r ↦ crash r
  ]

  abbrev pub with_timeouts : (Timeouts → Outcome (Bool × Timeouts)) → M Bool
  with_timeouts f c = elim (f c.timeouts) [
    | ok (b, t) ↦ ok (b, record c { timeouts = t })
    | crash r ↦ crash r
  ]

-- getLeader: round robin. No replica at all is a division by zero.
unfoldable pub leader_of : List ℕ → ℕ → Outcome ℕ
leader_of replicas view = elim (get_elem? replicas (view % length replicas)) [
  | none ↦ crash panic
  | some id ↦ ok id
]

module _ (env : Env) where
  unfoldable pub get_leader : ℕ → M env ℕ
  unfolding leader_of
  get_leader view c = lift (leader_of c.replicas view) c

  -- newTimeout: `int(1 << gap)`, where a shift by 64 or more gives 0.
  unfoldable pub new_timeout : Consensus env → ℕ
  new_timeout c = let gap = sub64 c.view c.prepare.view in if leb 64 gap then 0 else 2 ^ gap
