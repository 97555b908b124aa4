-- ===== src/Examples/Programs.antt =====
-- The theorems about hotstuff-node at inputs that meet their hypotheses.
use coded_hotterstuff.Prelude.{
  ℕ, zero, suc, ◌+◌, ◌<◌, ◌≡◌, refl, List, [], ◌∷◌, get_elem?, some, arith,
}
use coded_hotterstuff.Types
use coded_hotterstuff.Types.{Header, Certificate, Message, proposal, empty}
use coded_hotterstuff.Crypto.Keys.{
  generate_keys, generate_key, or_system, with_public, key_then, add_key,
}
use coded_hotterstuff.Program.{seed}
use coded_hotterstuff.Program.Genesis.{rand_header, create_example_node}
use coded_hotterstuff.Program.Genesis.Starts.{create_example_node-Started}
use coded_hotterstuff.Program.Genesis.Made.{Started}
use coded_hotterstuff.Program.Genesis.Replicas.{AreDistinct}
use coded_hotterstuff.Program.Process.{
  Process, proceed, call, call_step, enter, act, Runs, stay, then_act,
}
use coded_hotterstuff.Env.{Env}
use coded_hotterstuff.Node.New.{node_env}
use coded_hotterstuff.Consensus.Evolves.{Between, vote_views}
use coded_hotterstuff.Program.Process.Votes.{process_votes_once}
use coded_hotterstuff.Examples.World.{platform, world, world-IsDocumented}

distinct_four : (i k : ℕ) → get_elem? (1 ∷ 2 ∷ 3 ∷ 4 ∷ []) i ≡ some k → k ≡ i + 1
distinct_four zero k h = ground arith
distinct_four (suc zero) k h = ground arith
distinct_four (suc (suc zero)) k h = ground arith
distinct_four (suc (suc (suc zero))) k h = ground arith
distinct_four (suc (suc (suc (suc i)))) k h = cc

-- The seed 0: the first draw is the root of the genesis block, and the next ones are keys.
world_keys :
    generate_keys world.platform.bls world.keys (some 1) 4
    ≡ some (1 ∷ 2 ∷ 3 ∷ 4 ∷ [], 1 ∷ 2 ∷ 3 ∷ 4 ∷ [], 5)
unfolding generate_keys generate_key or_system with_public key_then add_key
world_keys = refl

world_keys-AreDistinct :
    (pubs privs : List ℕ) (r : ℕ)
    → generate_keys world.platform.bls world.keys (some 1) 4 ≡ some (pubs, privs, r)
    → AreDistinct world pubs
unfolding AreDistinct
world_keys-AreDistinct pubs privs r h i j k p q =
    let drawn : 1 ∷ 2 ∷ 3 ∷ 4 ∷ [] ≡ pubs = cc (world_keys, h) in
    let first = distinct_four i k (rw drawn p) in
    let second = distinct_four j k (rw drawn q) in omega (arith, first, second)

create_example_node-Started_example :
    (cert : Certificate) × ((idx interval : ℕ)
      → idx < 4
      → Started world idx 4
          (rand_header world (world.new_source seed))
          cert
          (create_example_node world idx 4 interval))
create_example_node-Started_example =
    create_example_node-Started world world-IsDocumented 4 (omega arith) (omega arith)
      world_keys-AreDistinct

abbrev payload : Types.Data
payload = record { transactions = [] }

-- The node with index 2 of four.
second_node :
    Started world 2 4
      (rand_header world 0)
      create_example_node-Started_example.0
      (create_example_node world 2 4 30)
second_node = create_example_node-Started_example.1 2 30 (omega arith)

abbrev second_env : Env
second_env = node_env platform second_node.priv second_node.conf

abbrev second_stepped : Process second_env
second_stepped = record (enter second_env second_node.node) { calls = []; receive = some empty }

Runs-second_stepped : Runs second_env payload 2 (enter second_env second_node.node) second_stepped
unfolding enter act call call_step
Runs-second_stepped = then_act proceed stay refl

world_view : (rand_header world 0).view ≡ 0
unfolding rand_header
world_view = refl

process_votes_once_example :
    Between 0 (vote_views second_stepped.node.delivered) second_stepped.node.consensus.voted
process_votes_once_example =
    process_votes_once world world-IsDocumented payload 2 4 (rand_header world 0)
      create_example_node-Started_example.0 (create_example_node world 2 4 30) world_view
      second_node second_stepped Runs-second_stepped
