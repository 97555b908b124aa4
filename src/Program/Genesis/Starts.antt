-- ===== src/Program/Genesis/Starts.antt =====
-- hotstuff-node/main.go, node.go and consensus.go: createExampleNode, from the random seed to a node
-- that runs.
use coded_hotterstuff.Program.Genesis.Replicas.{in_range, AreDistinct}
use coded_hotterstuff.Program.Genesis.Made.{start_node-Started, Started}
use coded_hotterstuff.Program.Genesis.Certified.{
  genesis_cert-IsEncodable, rand_header-IsEncodable, verified,
}
use coded_hotterstuff.Prelude.{
  true, ℕ, ◌+◌, ◌*◌, ◌/◌, ◌^◌, ◌<◌, ◌≡◌, refl, ap, ◌∙◌, List, length, some, arith,
}
use coded_hotterstuff.Exec.{ok}
use coded_hotterstuff.Types.{AggregatedSignature, Certificate}
use coded_hotterstuff.Crypto.{verify_aggregated}
use coded_hotterstuff.Crypto.Keys.{generate_keys}
use coded_hotterstuff.Crypto.Keys.Pairs.{length-ArePairs, generate_keys-Generated}
use coded_hotterstuff.Utils.Votes.{new_signature}
use coded_hotterstuff.Wire.Header.{marshal_header}
use coded_hotterstuff.Program.{seed, up_from}
use coded_hotterstuff.Program.Genesis.{
  World, rand_header, rand_hash, sign_all, start_node, example_from, create_example_node,
}
use coded_hotterstuff.Program.Genesis.Signed.{IsDocumented, sign_all-IsBuilt}

module _ (w : World) (documented : IsDocumented w) where
  open w.platform use {bls}
  open bls use {PublicKey, SecretKey}

  -- The random source, after the genesis block was drawn from it.
  abbrev drawn_from : w.keys.Rng
  drawn_from = (w.read 32 (w.new_source seed)).1

  example_node_runs :
      (idx n interval : ℕ) (pubs : List PublicKey) (privs : List SecretKey) (r : w.keys.Rng)
      (asig : AggregatedSignature)
      → generate_keys bls w.keys (some drawn_from) n ≡ some (pubs, privs, r)
      → sign_all w pubs privs (rand_hash w (w.new_source seed)) 0 pubs new_signature ≡ ok asig
      → verify_aggregated bls
          (2 * length pubs / 3 + 1)
          pubs
          (rand_hash w (w.new_source seed))
          (some asig)
        ≡ ok true
      → create_example_node w idx n interval
        ≡ start_node w idx interval pubs privs
            (rand_header w (w.new_source seed))
            (record { block = rand_hash w (w.new_source seed); sig = some asig })
  unfolding create_example_node example_from
  example_node_runs idx n interval pubs privs r asig p1 p2 p3 = rw p1 (rw p2 (rw p3 refl))

  -- createExampleNode makes a node for every index below the number of nodes, and does not panic: the
  -- genesis certificate that all keys sign is accepted, the node takes its own index as its id, and it
  -- starts at the genesis block in the view after it. Nodes that use the same seed have the same
  -- genesis block and certificate. The libraries behave as documented, and no key is drawn twice.
  pub create_example_node-Started :
      (n : ℕ)
      → 0 < n
      → n < 2 ^ 32
      → ((pubs : List PublicKey) (privs : List SecretKey) (r : w.keys.Rng)
          → generate_keys bls w.keys (some drawn_from) n ≡ some (pubs, privs, r)
          → AreDistinct w pubs)
      → (cert : Certificate) × ((idx interval : ℕ)
          → idx < n
          → Started w idx n
              (rand_header w (w.new_source seed))
              cert
              (create_example_node w idx n interval))
  create_example_node-Started n many few distinct =
      let rng : w.keys.Rng = w.new_source seed in
      let size : length (rand_hash w rng) ≡ 32 =
        unfold rand_hash in (documented.hash_size (marshal_header (rand_header w rng))).1 in
      let g = generate_keys-Generated bls w.keys documented.draws (some drawn_from) n in
      let s =
        sign_all-IsBuilt w documented (rand_hash w rng) size g.pubs g.privs (omega (arith, g.many))
          g.pairs in
      let cert : Certificate = record { block = rand_hash w rng; sig = some s.sig } in
      let okay = verified w documented rng size g.pubs _ s (omega (arith, g.many)) in
      (
        cert,
        λ idx interval low.
            let (priv, priv_at) =
              in_range w g.privs idx
                (omega (arith, g.many, length-ArePairs bls w.keys g.pubs g.privs g.pairs)) in
            let (own, own_at) = in_range w g.pubs idx (omega (arith, g.many)) in
            let started =
              start_node-Started w documented g.pubs g.privs idx interval (rand_header w rng) cert
                (omega (arith, g.many)) (distinct g.pubs g.privs g.rest g.drawn)
                (rand_header-IsEncodable w documented rng)
                (genesis_cert-IsEncodable w documented rng size g.pubs _ s (omega (arith, g.many))
                  (omega (arith, g.many)))
                (unfold rand_hash in refl) priv own priv_at own_at (omega arith) in
            record {
              priv = started.priv;
              conf = started.conf;
              node = started.node;
              made =
                  example_node_runs idx n interval g.pubs g.privs g.rest s.sig g.drawn s.signed okay
                  ∙ started.made;
              starts = started.starts;
              id = started.id;
              replicas = started.replicas ∙ ap (up_from 0) g.many;
              entered = started.entered;
              silent = started.silent;
              durable = started.durable;
            },
      )
