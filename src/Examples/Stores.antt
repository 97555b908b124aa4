-- ===== src/Examples/Stores.antt =====
-- The theorems about the store and about certificates at concrete inputs.
use coded_hotterstuff.Utils.Votes.Abstract.{
  collect_each_refines, count_all, collect_each_any_order, collect_each, voters_of,
}
use mathlib.Core.List.{Perm, Permᴰ}
use coded_hotterstuff.Store.Blocks.{get_block-save_block}
use coded_hotterstuff.Wire.Data.{marshal_data}
use coded_hotterstuff.Examples.Toy.{toy-IsMap}
use coded_hotterstuff.Utils.Genesis.Loads.{new_consensus-import_genesis, StartsAt}
use coded_hotterstuff.Crypto.{merge, verify, verify_aggregated, new_verifier}
use coded_hotterstuff.Examples.Signatures.{toy_bls-Aggregates, toy_bls}
use coded_hotterstuff.Consensus.Machine.{new_consensus}
use coded_hotterstuff.Store.{get_block, save_block, get_header, header_hash}
use coded_hotterstuff.Utils.Genesis.{import_genesis, write_genesis}
use coded_hotterstuff.Utils.Votes.Certified.{collect_votes-verifies, with_bls, collect_votes}
use coded_hotterstuff.Utils.Votes.Quorum.{collect_vote-IsCounted, IsCounted}
use coded_hotterstuff.Exec.{crash, ok, Outcome}
use coded_hotterstuff.Wire.Header.{marshal_header}
use coded_hotterstuff.Env.{Env}
use coded_hotterstuff.Consensus.State.{Consensus}
use coded_hotterstuff.Utils.Votes.{
  new_signature, merge_vote, collect_vote, collect_vote_for, start_votes, new_votes, Votes,
}
use coded_hotterstuff.Examples.Runs.{
  genesis_store, or_empty, genesis_data, genesis_header, genesis_cert, env, everything,
}
use coded_hotterstuff.Wire.Certificate.{marshal_certificate}
use coded_hotterstuff.Types.{Certificate, Vote}
use coded_hotterstuff.Prelude.{
  Option, ◌<◌, Bool, ℕ, ◌≡◌, refl, List, [], ◌∷◌, length, ◌≤◌, none, some, true, false, arith, ◌^◌,
}

-- A store that is empty, and the genesis block of the examples.
genesis_size : length (marshal_header genesis_header) < 2 ^ 63
unfolding everything
genesis_size = omega arith

genesis_cert_size : length (marshal_certificate genesis_cert) < 2 ^ 63
unfolding everything
genesis_cert_size = omega arith

genesis_cert_block : genesis_cert.block ≡ header_hash env genesis_header
unfolding everything
genesis_cert_block = refl

genesis_absent : get_header env [] (header_hash env genesis_header) ≡ none
unfolding everything
genesis_absent = refl

genesis_imported :
    import_genesis env [] genesis_header genesis_cert genesis_data ≡ some (or_empty genesis_store)
unfolding everything write_genesis
genesis_imported = refl

new_consensus-import_genesis_example :
    (r : Consensus env) × (new_consensus env (or_empty genesis_store) 0 (0 ∷ []) ≡ ok r)
    × StartsAt env genesis_header genesis_cert r
new_consensus-import_genesis_example =
    new_consensus-import_genesis env (toy-IsMap 0 1) [] (or_empty genesis_store) genesis_header
      genesis_cert genesis_data 0 (0 ∷ [])
      (record { view = omega arith; parent_view = omega arith; size = genesis_size })
      (record {
        sig = record { voters = (omega arith, tt); sig = λ p. cc };
        size = genesis_cert_size;
      })
      genesis_cert_block genesis_absent genesis_imported

-- Three replicas, with the keys 5, 6 and 7, vote for the genesis block; the second vote comes twice.
abbrev signers : Env
signers = with_bls env toy_bls 3 (5 ∷ 6 ∷ 7 ∷ [])

abbrev vote_of : ℕ → ℕ → Vote
vote_of voter key = record {
  block = header_hash env genesis_header;
  view = 0;
  voter = voter;
  sig = key ∷ [];
}

abbrev three_votes : List Vote
three_votes = vote_of 0 5 ∷ vote_of 1 6 ∷ vote_of 1 6 ∷ vote_of 2 7 ∷ []

abbrev or_none : Outcome (Bool × Votes) → Votes
or_none (ok (b, v)) = v
or_none (crash r) = new_votes 3

abbrev elected : Votes
elected = or_none (collect_votes signers three_votes (start_votes env genesis_header (new_votes 3)))

three_votes_count :
    collect_votes signers three_votes (start_votes env genesis_header (new_votes 3))
    ≡ ok (true, elected)
unfolding everything collect_votes collect_vote_for merge_vote new_verifier verify merge
three_votes_count = refl

no_voters : (new_votes 3).voters ≡ []
unfolding new_votes
no_voters = refl

majority_is_enough : 3 ≤ (new_votes 3).majority
unfolding new_votes
majority_is_enough = omega arith

collect_votes-verifies_example :
    (cert : Certificate) × (elected.cert ≡ some cert)
    × (cert.block ≡ header_hash env genesis_header)
    × (verify_aggregated toy_bls 3 (5 ∷ 6 ∷ 7 ∷ []) (header_hash env genesis_header) cert.sig
        ≡ ok true)
collect_votes-verifies_example =
    collect_votes-verifies env toy_bls toy_bls-Aggregates 3 (5 ∷ 6 ∷ 7 ∷ []) genesis_header
      three_votes (new_votes 3) elected no_voters majority_is_enough three_votes_count

abbrev one_vote : Votes
one_vote =
    or_none (collect_vote signers (vote_of 0 5) (start_votes env genesis_header (new_votes 3)))

one_vote_collected :
    collect_vote signers (vote_of 0 5) (start_votes env genesis_header (new_votes 3))
    ≡ ok (false, one_vote)
unfolding everything collect_vote_for merge_vote new_verifier verify merge
one_vote_collected = refl

abbrev started_cert : Certificate
started_cert = record { block = header_hash env genesis_header; sig = some new_signature }

started_cert_held : (start_votes env genesis_header (new_votes 3)).cert ≡ some started_cert
unfolding start_votes
started_cert_held = refl

nothing-IsCounted :
    IsCounted signers started_cert.block (start_votes env genesis_header (new_votes 3))
unfolding start_votes new_votes
nothing-IsCounted = record { distinct = tt; signed = tt }

collect_vote-IsCounted_example :
    IsCounted signers started_cert.block one_vote
    × (false ≡ true
        → (start_votes env genesis_header (new_votes 3)).majority ≤ length one_vote.voters)
collect_vote-IsCounted_example =
    collect_vote-IsCounted signers (vote_of 0 5) (start_votes env genesis_header (new_votes 3))
      one_vote started_cert false started_cert_held nothing-IsCounted one_vote_collected

abbrev saved : Option env.Db
saved = save_block env [] genesis_header genesis_cert genesis_data

saved_imported : save_block env [] genesis_header genesis_cert genesis_data ≡ some (or_empty saved)
unfolding everything
saved_imported = refl

genesis_data_size : length (marshal_data genesis_data) < 2 ^ 63
unfolding everything
genesis_data_size = omega arith

get_block-save_block_example :
    get_block env (or_empty saved) (header_hash env genesis_header)
    ≡ some (record {
      header = some genesis_header;
      payload = some genesis_data;
      cert = some genesis_cert;
    })
get_block-save_block_example =
    get_block-save_block env (toy-IsMap 0 1) [] (or_empty saved) genesis_header genesis_cert
      genesis_data (record { view = omega arith; parent_view = omega arith; size = genesis_size })
      (record {
        sig = record { voters = (omega arith, tt); sig = λ p. cc };
        size = genesis_cert_size;
      })
      (record { nonces = tt; size = genesis_data_size }) genesis_cert_block saved_imported

-- The votes as another replica receives them.
abbrev votes_in_order : List Vote
votes_in_order = vote_of 0 5 ∷ vote_of 1 6 ∷ []

abbrev votes_swapped : List Vote
votes_swapped = vote_of 1 6 ∷ vote_of 0 5 ∷ []

abbrev before : Votes
before = start_votes env genesis_header (new_votes 3)

abbrev or_before : Outcome Votes → Votes
or_before (ok v) = v
or_before (crash r) = before

votes_permuted : Perm votes_in_order votes_swapped
votes_permuted = ∣ Permᴰ.swap refl refl ∣₁

votes_in_order_count :
    collect_each signers votes_in_order before
    ≡ ok (or_before (collect_each signers votes_in_order before))
unfolding everything collect_each collect_vote_for merge_vote new_verifier verify merge
votes_in_order_count = refl

votes_swapped_count :
    collect_each signers votes_swapped before
    ≡ ok (or_before (collect_each signers votes_swapped before))
unfolding everything collect_each collect_vote_for merge_vote new_verifier verify merge
votes_swapped_count = refl

collect_each_refines_example :
    voters_of (or_before (collect_each signers votes_in_order before))
    ≡ count_all signers started_cert.block votes_in_order (voters_of before)
collect_each_refines_example =
    collect_each_refines signers votes_in_order before
      (or_before (collect_each signers votes_in_order before)) started_cert started_cert_held
      votes_in_order_count

collect_each_any_order_example :
    voters_of (or_before (collect_each signers votes_in_order before))
    ≡ voters_of (or_before (collect_each signers votes_swapped before))
collect_each_any_order_example =
    collect_each_any_order signers votes_in_order votes_swapped before
      (or_before (collect_each signers votes_in_order before))
      (or_before (collect_each signers votes_swapped before)) started_cert started_cert_held
      votes_permuted votes_in_order_count votes_swapped_count
