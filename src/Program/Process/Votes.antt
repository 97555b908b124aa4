-- ===== src/Program/Process/Votes.antt =====
-- hotstuff-node/main.go, node.go and consensus.go: the votes of a running process.
use coded_hotterstuff.Prelude.{ℕ, ◌≡◌, sym, ◌∙◌}
use coded_hotterstuff.Exec.{Outcome}
use coded_hotterstuff.Types
use coded_hotterstuff.Env.{Env}
use coded_hotterstuff.Consensus.Evolves.{Between, vote_views}
use coded_hotterstuff.Node.{Node, Reaches, here, round}
use coded_hotterstuff.Node.VoteOnce.{vote_once}
use coded_hotterstuff.Types.{Header, Certificate}
use coded_hotterstuff.Node.New.{node_env, keys_of_replicas}
use coded_hotterstuff.Program.Genesis.{World, Example}
use coded_hotterstuff.Program.Genesis.Signed.{IsDocumented}
use coded_hotterstuff.Program.Genesis.Made.{Started}
use coded_hotterstuff.Program.Process.{Process, enter, Runs, stay, then_act}
use coded_hotterstuff.Program.Process.Steps

module _ (env : Env) (payload : Types.Data) (idx : ℕ) where
  -- A step is a round of the loop, or leaves the node alone.
  Step-Reaches :
      (n : Node env) (p r : Process env)
      → Reaches env n p.node
      → Steps.Step env payload idx p r
      → Reaches env n r.node
  Step-Reaches n p _ reached (Steps.ran_start m t) = round _ reached t
  Step-Reaches n p _ reached (Steps.ran_receive x m _ t) = round _ reached t
  Step-Reaches n p _ reached (Steps.ran_send m _ t) = round _ reached t
  Step-Reaches n p _ reached (Steps.ran_tick m t) = round _ reached t
  Step-Reaches n p _ reached (Steps.ran_waiting m _ t) = round _ reached t
  Step-Reaches n p _ reached (Steps.ran_missing m _ t) = round _ reached t
  Step-Reaches n p _ reached (Steps.ran_messages m _ t) = round _ reached t
  Step-Reaches n p _ reached (Steps.ran_blocks m _ t) = round _ reached t
  Step-Reaches n p _ reached _ = reached

  pub Runs-Reaches :
      (p : Process env) {r : Process env} → Runs env payload idx p r → Reaches env p.node r.node
  Runs-Reaches p stay = here
  Runs-Reaches p (then_act {q = q} {r = r} a runs h) =
      Step-Reaches p.node q r (Runs-Reaches p runs) (Steps.act-Step env payload idx a q r h)

module _ (w : World) (documented : IsDocumented w) (payload : Types.Data) where
  -- A process around a node that createExampleNode has made at a genesis block of view 0: whatever its
  -- goroutines do and in whichever order, the votes that it hands out are for strictly rising views
  -- after 0, none later than the last vote that the node remembers.
  pub process_votes_once :
      (idx n : ℕ) (h : Header) (cert : Certificate) (o : Outcome (Example w))
      → h.view ≡ 0
      → (s : Started w idx n h cert o) → (q : Process (node_env w.platform s.priv s.conf))
      → Runs
          (node_env w.platform s.priv s.conf)
          payload
          idx
          (enter (node_env w.platform s.priv s.conf) s.node)
          q
      → Between 0 (vote_views q.node.delivered) q.node.consensus.voted
  process_votes_once idx n h cert o first s q runs =
      let env : Env = node_env w.platform s.priv s.conf in
      let map = documented.map s.priv (keys_of_replicas w.platform s.conf.replicas) in
      let reached : Reaches env s.node q.node =
        unfold enter in Runs-Reaches env payload idx (enter env s.node) runs in
      let votes =
        vote_once env map s.node.consensus q.node s.durable s.silent (rw s.entered at reached) in
      rw (sym first ∙ sym s.starts.voted) votes.0
