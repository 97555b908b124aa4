-- ===== src/Program/Genesis/Made.antt =====
-- hotstuff-node/main.go, node.go and consensus.go: the node that createExampleNode makes of a genesis
-- block and its certificate.
use coded_hotterstuff.Program.Genesis.Replicas.{
  length-replicas_of, key_at, replicas_of-at, AreDistinct, keys_of_replicas-replicas_of,
}
use coded_hotterstuff.Prelude.{
  ℕ, ◌^◌, ◌<◌, ◌≡◌, refl, ap, sym, ◌∙◌, List, [], length, get_elem?, none, some, arith,
}
use coded_hotterstuff.Exec.{Outcome, ok}
use coded_hotterstuff.Types.{Header, Certificate}
use coded_hotterstuff.Env.{Env}
use coded_hotterstuff.Wire.Header.{marshal_header}
use coded_hotterstuff.Store.{header_hash, get_header}
use coded_hotterstuff.Utils.Genesis.{import_genesis}
use coded_hotterstuff.Utils.Genesis.Loads.{
  StartsAt, new_consensus-import_genesis, import_genesis_total,
}
use coded_hotterstuff.Consensus.Evolves.{IsDurable}
use coded_hotterstuff.Consensus.Restart.{new_consensus-identity, new_consensus-IsLoaded}
use coded_hotterstuff.Store.{header_key}
use coded_hotterstuff.Node.{Node, enter_loop}
use coded_hotterstuff.Node.New.{
  Config, env_of, node_env, keys_of_replicas, new_node, rid_from, ids_from,
}
use coded_hotterstuff.Node.Own.{IsOwn, rid-own, ids_from-up_from, new_node-entered}
use coded_hotterstuff.Program.{up_from}
use coded_hotterstuff.Program.Genesis.{World, Example, replicas_of, start_node, no_transactions}
use coded_hotterstuff.Program.Genesis.Signed.{IsDocumented}
use coded_hotterstuff.Wire.Header.RoundTrip as HeaderRoundTrip
use coded_hotterstuff.Wire.Certificate.RoundTrip as CertificateRoundTrip

module _ (w : World) where
  open w.platform use {bls}
  open bls use {PublicKey, SecretKey}

  -- A node that createExampleNode has made: it starts at the genesis block, under its own index and
  -- among `n` replicas.
  pub record Started (idx n : ℕ) (h : Header) (cert : Certificate) (o : Outcome (Example w))
      : Type 0 where
    pub priv : SecretKey
    pub conf : Config w.platform
    pub node : Node (node_env w.platform priv conf)
    pub made : o ≡ ok (priv, conf, node)
    pub starts : StartsAt (node_env w.platform priv conf) h cert node.consensus
    pub id : node.consensus.id ≡ idx
    pub replicas : node.consensus.replicas ≡ up_from 0 n
    pub entered : node ≡ enter_loop (node_env w.platform priv conf) node.consensus []
    pub silent : node.consensus.progress.messages ≡ []
    pub durable : IsDurable (node_env w.platform priv conf) node.consensus

module _ (w : World) (documented : IsDocumented w) where
  open w.platform use {bls}
  open bls use {PublicKey, SecretKey}

  pub replicas_of-IsOwn :
      (pubs : List PublicKey) (idx : ℕ) (own : PublicKey)
      → get_elem? pubs idx ≡ some own
      → AreDistinct w pubs
      → IsOwn w.platform own (replicas_of w pubs) idx
  unfolding AreDistinct
  replicas_of-IsOwn pubs idx own at distinct = record {
    replica = record { id = own };
    there = replicas_of-at w pubs idx own at;
    own_key = (documented.same_key own own).1 refl;
    only = λ i r there same.
        let eq : own ≡ r.id = (documented.same_key own r.id).0 same in
        distinct i idx own (key_at w pubs i r there ∙ ap (λ (k : PublicKey). some k) (sym eq)) at;
  }

  module _ (pubs : List PublicKey) (privs : List SecretKey) (idx interval : ℕ) (h : Header)
      (cert : Certificate) (small : length pubs < 2 ^ 64) (distinct : AreDistinct w pubs)
      (enc : HeaderRoundTrip.IsEncodable h) (enc' : CertificateRoundTrip.IsEncodable cert)
      (for_block : cert.block ≡ w.platform.blake2s (marshal_header h)) where
    abbrev conf_of : PublicKey → Config w.platform
    conf_of own = record { interval = interval; id = own; replicas = replicas_of w pubs }

    start_node_runs :
        (priv : SecretKey) (own : PublicKey) (d e : w.platform.Db)
        (node : Node (node_env w.platform priv (conf_of own)))
        → get_elem? privs idx ≡ some priv
        → get_elem? pubs idx ≡ some own
        → w.mem_db ≡ some d
        → import_genesis (env_of w.platform priv pubs) d h cert no_transactions ≡ some e
        → new_node w.platform e priv (conf_of own) ≡ ok node
        → start_node w idx interval pubs privs h cert ≡ ok (priv, conf_of own, node)
    unfolding start_node
    start_node_runs priv own d e node p1 p2 p3 p4 p5 = rw p1 (rw p2 (rw p3 (rw p4 (rw p5 refl))))

    pub start_node-Started :
        (priv : SecretKey) (own : PublicKey)
        → get_elem? privs idx ≡ some priv
        → get_elem? pubs idx ≡ some own
        → idx < 2 ^ 64
        → Started w idx (length pubs) h cert (start_node w idx interval pubs privs h cert)
    start_node-Started priv own priv_at own_at low =
        let conf : Config w.platform = conf_of own in
        let env : Env = node_env w.platform priv conf in
        let (d, opened, fresh) = documented.opens in
        let absent : get_header env d (header_hash env h) ≡ none =
          unfold get_header in rw (fresh (header_key (header_hash env h))) refl in
        let (e, imported) =
          import_genesis_total env d h cert no_transactions documented.writes absent in
        let imported' : import_genesis (env_of w.platform priv pubs) d h cert no_transactions
            ≡ some e =
          ap (λ ks. import_genesis (env_of w.platform priv ks) d h cert no_transactions)
            (sym (keys_of_replicas-replicas_of w pubs))
          ∙ imported in
        let (c, loaded, starts) =
          new_consensus-import_genesis env
            (documented.map priv (keys_of_replicas w.platform conf.replicas)) d e h cert
            no_transactions (rid_from w.platform own 0 0 conf.replicas)
            (ids_from w.platform 0 conf.replicas) enc enc'
            (for_block ∙ (unfold header_hash in refl)) absent imported in
        let identity =
          new_consensus-identity env e (rid_from w.platform own 0 0 conf.replicas)
            (ids_from w.platform 0 conf.replicas) c loaded in
        let held =
          new_consensus-IsLoaded env e (rid_from w.platform own 0 0 conf.replicas)
            (ids_from w.platform 0 conf.replicas) c loaded in
        let made = new_node-entered w.platform e priv conf c loaded in
        record {
          priv = priv;
          conf = conf;
          node = enter_loop env c [];
          made =
              start_node_runs priv own d e (enter_loop env c []) priv_at own_at opened imported'
                made;
          starts = unfold enter_loop in starts;
          id =
              unfold enter_loop in
              (identity.0
                ∙ rid-own w.platform own idx conf.replicas
                    (replicas_of-IsOwn pubs idx own own_at distinct) low);
          replicas =
              unfold enter_loop in
              (identity.1
                ∙ ids_from-up_from w.platform 0 conf.replicas
                    (omega (arith, length-replicas_of w pubs))
                ∙ ap (up_from 0) (length-replicas_of w pubs));
          entered = unfold enter_loop in refl;
          silent = unfold enter_loop in held.silent;
          durable =
              unfold enter_loop in
              record {
                view_range = rw starts.view (omega arith);
                voted_range = rw starts.voted enc.view;
                view_saved = rw held.same_store held.view;
                voted_saved = rw held.same_store held.voted;
              };
        }
