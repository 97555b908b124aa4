-- ===== src/Utils/Genesis/Loads.antt =====
-- utils.go and consensus.go: newConsensus after ImportGenesis.
use coded_hotterstuff.Prelude.{
  false, ℕ, ◌+◌, ◌%◌, ◌^◌, ◌≡◌, refl, ap, sym, ◌∙◌, List, [], ◌∷◌, Option, none, some, arith,
}
use coded_hotterstuff.Prelude.Bytes.{Bytes}
use coded_hotterstuff.Exec.{ok}
use coded_hotterstuff.Types.{Header, Certificate, Data}
use coded_hotterstuff.Encoding.{encode_uint64, decode_uint64-encode_uint64}
use coded_hotterstuff.Env.{Env, IsMap}
use coded_hotterstuff.Wire.Header.{marshal_header}
use coded_hotterstuff.Wire.Header.RoundTrip.{unmarshal_header-marshal_header}
use coded_hotterstuff.Wire.Certificate.{marshal_certificate}
use coded_hotterstuff.Wire.Certificate.RoundTrip.{unmarshal_certificate-marshal_certificate}
use coded_hotterstuff.Wire.Data.{marshal_data}
use coded_hotterstuff.Wire.Header.RoundTrip
use coded_hotterstuff.Wire.Certificate.RoundTrip as CertificateRoundTrip
use coded_hotterstuff.Store.{
  header_hash, header_key, cert_key, data_key, tag_bytes, parts_key, view_bucket, voted_bucket,
  prepare_tag, locked_tag, decide_tag, get_header, get_view, get_voted, get_tag, get_tag_header,
  get_tag_cert, get_certificate, save_header, save_certificate, save_data, save_view, save_voted,
  set_tag,
}
use coded_hotterstuff.Store.Puts.{apart, puts, puts-wrote, puts_total}
use coded_hotterstuff.Consensus.State.{Consensus}
use coded_hotterstuff.Utils.Votes.{new_votes}
use coded_hotterstuff.Utils.Timeouts.{new_timeouts}
use coded_hotterstuff.Progress.{empty_progress}
use coded_hotterstuff.Consensus.Machine.{new_consensus, majority_of}
use coded_hotterstuff.Utils.Genesis.{import_genesis, write_genesis}

-- The eight writes.
abbrev genesis_writes : (env : Env) → Header → Certificate → Data → List (Bytes × Bytes)
genesis_writes env h c x =
    (header_key (header_hash env h), marshal_header h)
    ∷ (cert_key c.block, marshal_certificate c)
    ∷ (data_key (header_hash env h), marshal_data x)
    ∷ (view_bucket ∷ [], encode_uint64 ((h.view + 1) % 2 ^ 64))
    ∷ (voted_bucket ∷ [], encode_uint64 h.view)
    ∷ (tag_bytes prepare_tag, header_hash env h)
    ∷ (tag_bytes locked_tag, header_hash env h)
    ∷ (tag_bytes decide_tag, header_hash env h)
    ∷ []

write_genesis-puts :
    (env : Env) (d : env.Db) (h : Header) (c : Certificate) (x : Data)
    → write_genesis env d h c x ≡ puts env d (genesis_writes env h c x)
unfolding write_genesis puts save_header save_certificate save_data save_view save_voted set_tag
write_genesis-puts env d h c x = refl

import_genesis-fresh :
    (env : Env) (d : env.Db) (h : Header) (c : Certificate) (x : Data)
    → get_header env d (header_hash env h) ≡ none
    → import_genesis env d h c x ≡ write_genesis env d h c x
unfolding import_genesis
import_genesis-fresh env d h c x fresh =
    ap (λ (o : Option Header). elim o [ some _ ↦ some d | none ↦ write_genesis env d h c x ]) fresh

-- A database that takes every write takes the genesis block.
pub import_genesis_total :
    (env : Env) (d : env.Db) (h : Header) (c : Certificate) (x : Data)
    → ((d : env.Db) (k v : Bytes) → (e : env.Db) × (env.db_put d k v ≡ some e))
    → get_header env d (header_hash env h) ≡ none
    → (e : env.Db) × (import_genesis env d h c x ≡ some e)
import_genesis_total env d h c x writes fresh =
    let (e, written) = puts_total env writes (genesis_writes env h c x) d in
    (e, import_genesis-fresh env d h c x fresh ∙ write_genesis-puts env d h c x ∙ written)

module _ (env : Env) (map : IsMap env) (d e : env.Db) (h : Header) (c : Certificate) (x : Data)
    (p : puts env d (genesis_writes env h c x) ≡ some e) where
  wrote_header : env.db_get e (header_key (header_hash env h)) ≡ some (marshal_header h)
  unfolding header_key cert_key data_key tag_bytes parts_key
  wrote_header = puts-wrote env map [] _ d e _ _ p (
    apart refl,
    (apart refl, (apart refl, (apart refl, (apart refl, (apart refl, (apart refl, tt)))))),
  )

  wrote_cert : env.db_get e (cert_key c.block) ≡ some (marshal_certificate c)
  unfolding header_key cert_key data_key tag_bytes parts_key
  wrote_cert =
      puts-wrote env map (_ ∷ []) _ d e _ _ p
        (apart refl, (apart refl, (apart refl, (apart refl, (apart refl, (apart refl, tt))))))

  wrote_view : env.db_get e (view_bucket ∷ []) ≡ some (encode_uint64 ((h.view + 1) % 2 ^ 64))
  unfolding tag_bytes
  wrote_view =
      puts-wrote env map (_ ∷ _ ∷ _ ∷ []) _ d e _ _ p
        (apart refl, (apart refl, (apart refl, (apart refl, tt))))

  wrote_voted : env.db_get e (voted_bucket ∷ []) ≡ some (encode_uint64 h.view)
  unfolding tag_bytes
  wrote_voted =
      puts-wrote env map (_ ∷ _ ∷ _ ∷ _ ∷ []) _ d e _ _ p
        (apart refl, (apart refl, (apart refl, tt)))

  wrote_prepare : env.db_get e (tag_bytes prepare_tag) ≡ some (header_hash env h)
  unfolding tag_bytes
  wrote_prepare =
      puts-wrote env map (_ ∷ _ ∷ _ ∷ _ ∷ _ ∷ []) _ d e _ _ p (apart refl, (apart refl, tt))

  wrote_locked : env.db_get e (tag_bytes locked_tag) ≡ some (header_hash env h)
  unfolding tag_bytes
  wrote_locked = puts-wrote env map (_ ∷ _ ∷ _ ∷ _ ∷ _ ∷ _ ∷ []) _ d e _ _ p (apart refl, tt)

  wrote_decide : env.db_get e (tag_bytes decide_tag) ≡ some (header_hash env h)
  unfolding tag_bytes
  wrote_decide = puts-wrote env map (_ ∷ _ ∷ _ ∷ _ ∷ _ ∷ _ ∷ _ ∷ []) _ d e _ _ p tt

-- The state of a replica that has the genesis block as its prepared, locked and committed one.
pub record StartsAt (env : Env) (h : Header) (cert : Certificate) (c : Consensus env) : Type 0 where
  pub view : c.view ≡ (h.view + 1) % 2 ^ 64
  pub voted : c.voted ≡ h.view
  pub blocks : (c.prepare ≡ h) × (c.locked ≡ h) × (c.commit ≡ h)
  pub prepare_cert : c.prepare_cert ≡ cert

module _ (env : Env) (map : IsMap env) where
  abbrev started : env.Db → Header → Certificate → ℕ → List ℕ → Consensus env
  started e h c id replicas = record {
    store = e;
    ticks = 0;
    timeout = 0;
    id = id;
    replicas = replicas;
    votes = new_votes (majority_of replicas);
    timeouts = new_timeouts (majority_of replicas);
    view = (h.view + 1) % 2 ^ 64;
    voted = h.view;
    prepare = h;
    locked = h;
    commit = h;
    prepare_cert = c;
    timeout_cert = none;
    progress = empty_progress;
    waiting_data = false;
  }

  loads :
      (e : env.Db) (h : Header) (c : Certificate) (id : ℕ) (replicas : List ℕ)
      → get_view env e ≡ some (ok ((h.view + 1) % 2 ^ 64))
      → get_voted env e ≡ some (ok h.view)
      → get_tag_header env e prepare_tag ≡ some h
      → get_tag_header env e locked_tag ≡ some h
      → get_tag_header env e decide_tag ≡ some h
      → get_tag_cert env e prepare_tag ≡ some c
      → (r : Consensus env) × (new_consensus env e id replicas ≡ ok r) × StartsAt env h c r
  unfolding new_consensus
  loads e h c id replicas view voted prepare locked commit cert = (
    started e h c id replicas,
    rw view (rw voted (rw prepare (rw locked (rw commit (rw cert refl))))),
    record { view = refl; voted = refl; blocks = (refl, refl, refl); prepare_cert = refl },
  )

  tag_header :
      (e : env.Db) (t : _) (h : Header)
      → RoundTrip.IsEncodable h
      → env.db_get e (tag_bytes t) ≡ some (header_hash env h)
      → env.db_get e (header_key (header_hash env h)) ≡ some (marshal_header h)
      → get_tag_header env e t ≡ some h
  unfolding get_tag_header get_tag get_header
  tag_header e t h enc tagged stored =
      rw tagged (rw stored (rw (unmarshal_header-marshal_header h enc) refl))

  -- ImportGenesis makes a store, without the block, into one on which a replica starts: after the
  -- view of the genesis block, with that view as the last voted one, with the block as its
  -- prepared, locked and committed one, and with its certificate. The header and the certificate are
  -- as Go's types grant, the certificate's bytes are not empty, and it is for the block.
  pub new_consensus-import_genesis :
      (d e : env.Db) (h : Header) (c : Certificate) (x : Data) (id : ℕ) (replicas : List ℕ)
      → RoundTrip.IsEncodable h
      → CertificateRoundTrip.IsEncodable c
      → c.block ≡ header_hash env h
      → get_header env d (header_hash env h) ≡ none
      → import_genesis env d h c x ≡ some e
      → (r : Consensus env) × (new_consensus env e id replicas ≡ ok r) × StartsAt env h c r
  new_consensus-import_genesis d e h c x id replicas enc enc' for_block fresh p =
      let imported : import_genesis env d h c x ≡ write_genesis env d h c x =
        import_genesis-fresh env d h c x fresh in
      let written : puts env d (genesis_writes env h c x) ≡ some e =
        sym (write_genesis-puts env d h c x) ∙ sym imported ∙ p in
      let stored = wrote_header env map d e h c x written in
      loads e h c id replicas
        (unfold get_view in
          rw (wrote_view env map d e h c x written)
            (ap some (decode_uint64-encode_uint64 ((h.view + 1) % 2 ^ 64) (omega arith))))
        (unfold get_voted in
          rw (wrote_voted env map d e h c x written)
            (ap some (decode_uint64-encode_uint64 h.view enc.view)))
        (tag_header e prepare_tag h enc (wrote_prepare env map d e h c x written) stored)
        (tag_header e locked_tag h enc (wrote_locked env map d e h c x written) stored)
        (tag_header e decide_tag h enc (wrote_decide env map d e h c x written) stored)
        (unfold get_tag_cert get_tag get_certificate in
          rw (wrote_prepare env map d e h c x written) (
            rw (← for_block) (
              rw (wrote_cert env map d e h c x written)
                (rw (unmarshal_certificate-marshal_certificate c enc') refl))))
