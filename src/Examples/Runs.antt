-- ===== src/Examples/Runs.antt =====
-- Runs of one replica that is a quorum by itself.
use coded_hotterstuff.Prelude.Bytes.{bytes_eq}
use coded_hotterstuff.Encoding.{decode_uint64, encode_uint64}
use coded_hotterstuff.Wire.Varint.{read_loop, read_varint, varint}
use coded_hotterstuff.Wire.Fields.{
  messages_field, skip_field, take_bytes, read_bytes, read_bytes_field, read_uint_field, read_tag,
  unmarshal_loop, unmarshal, message_field, bytes_field, uint_field,
}
use coded_hotterstuff.Wire.Signature.{
  signature_field, unmarshal_signature, pack_voters, marshal_signature,
}
use coded_hotterstuff.Wire.Data.{marshal_data}
use coded_hotterstuff.Wire.Certificate.{
  certificate_field, unmarshal_certificate, marshal_certificate,
}
use coded_hotterstuff.Store.{
  tag_bytes, parts_key, cert_key, data_key, header_key, hash_sum, header_hash, get_certificate,
  get_tag_cert, get_tag_header, get_tag, get_voted, get_view, get_header, set_tag, save_block,
  save_voted, save_view, save_certificate, save_data, save_header,
}
use coded_hotterstuff.Consensus.Chain.{
  persist_proposal, safe_node, catch_up, sync_view, update_from, update_parent, update,
  commit_block, lock, update_prepare,
}
use coded_hotterstuff.Consensus.Round.{
  deliver, send_msg, send_new_view, reset_timeout, wait_for_data, lead_if_leader, restart_timeouts,
  collect_timeouts, enter_round, act, next_round,
}
use coded_hotterstuff.Consensus.Handlers.{
  sync_full, sync_parts, sync_block, sync_blocks, on_sync, certify_timeout, new_view_from,
  on_new_view, certify, on_vote, send_vote, vote_if_safe, store_and_vote, accept_proposal,
  timeout_is_signed, check_signatures, find_parent, check_certificate, on_proposal,
}
use coded_hotterstuff.Progress.{add_not_found, add_header, add_message, reset, empty_progress}
use coded_hotterstuff.Utils.Timeouts.{collect_timeout, reset_timeouts, start_timeouts, new_timeouts}
use coded_hotterstuff.Node.{
  is_idle, take_progress, poll, enter_loop, handle, Node, Event, Reaches, round,
}
use coded_hotterstuff.Utils.Votes.{exists, collect_vote, start_votes, reset_votes, new_votes}
use coded_hotterstuff.Consensus.Machine.{
  majority_of, on_timeout, step_within, dispatch, new_header, propose, step, send, tick, start,
  new_consensus,
}
use coded_hotterstuff.Wire.Header.{header_field, unmarshal_header, marshal_header}
use coded_hotterstuff.Utils.Genesis.{import_genesis}
use coded_hotterstuff.Consensus.State.{leader_of, get_leader, persist, new_timeout, Consensus}
use coded_hotterstuff.Env.{Env}
use coded_hotterstuff.Prelude.{◌≡◌, refl, Bool, true, false, List, [], ◌∷◌, Option, none, some}
use coded_hotterstuff.Exec.{◌>>=◌, Outcome, ok, crash}
use coded_hotterstuff.Types.{Header, Certificate, Data}
use coded_hotterstuff.Examples.Toy.{toy}

abbrev pub env : Env
env = toy 0 1

abbrev pub genesis_header : Header
genesis_header = record {
  view = 0;
  parent = [];
  parent_view = 0;
  data_root = 7 ∷ [];
  state_root = [];
}

abbrev pub genesis_cert : Certificate
genesis_cert = record {
  block = marshal_header genesis_header;
  sig = some (record { voters = 0 ∷ []; sig = some (0 ∷ []) });
}

abbrev pub genesis_data : Data
genesis_data = record { transactions = [] }

abbrev pub genesis_store : Option env.Db
genesis_store = import_genesis env [] genesis_header genesis_cert genesis_data

abbrev pub or_empty : Option env.Db → env.Db
or_empty none = []
or_empty (some d) = d

abbrev pub genesis : Consensus env
genesis = record {
  store = or_empty genesis_store;
  ticks = 0;
  timeout = 0;
  id = 0;
  replicas = 0 ∷ [];
  votes = new_votes 1;
  timeouts = new_timeouts 1;
  view = 1;
  voted = 0;
  prepare = genesis_header;
  locked = genesis_header;
  commit = genesis_header;
  prepare_cert = genesis_cert;
  timeout_cert = none;
  progress = empty_progress;
  waiting_data = false;
}

abbrev or_stay : Node env → Option (Outcome (Node env)) → Node env
or_stay n none = n
or_stay n (some (crash r)) = n
or_stay n (some (ok k)) = k

abbrev pub next : Event → Node env → Node env
next e n = or_stay n (handle env e (poll env n))

abbrev pub no_data : Option Data
no_data = some (record { transactions = [] })

-- An event whose channel is nil leaves the replica where it is.
pub Reaches-next : (e : Event) (n m : Node env) → Reaches env n m → Reaches env n (next e m)
Reaches-next e n m r = go (handle env e (poll env m)) refl
  where
    go :
        (o : Option (Outcome (Node env)))
        → handle env e (poll env m) ≡ o
        → Reaches env n (or_stay m o)
    go none p = r
    go (some (crash x)) p = r
    go (some (ok k)) p = round e r p

abbrev pub is_handled : Option (Outcome (Node env)) → Bool
is_handled (some (ok k)) = true
is_handled _ = false

-- The state after an event that the replica handles.
pub next-handle :
    (e : Event) (n : Node env)
    → is_handled (handle env e (poll env n)) ≡ true
    → handle env e (poll env n) ≡ some (ok (next e n))
next-handle e n h = go (handle env e (poll env n)) h
  where
    go : (o : Option (Outcome (Node env))) → is_handled o ≡ true → o ≡ some (ok (or_stay n o))
    go none h = cc
    go (some (crash x)) h = cc
    go (some (ok k)) h = refl

unfoldable pub play : List Event → Node env → Node env
play [] n = n
play (e ∷ es) n = play es (next e n)

pub Reaches-play : (es : List Event) (n m : Node env) → Reaches env n m → Reaches env n (play es m)
unfolding play
Reaches-play [] n m r = r
Reaches-play (e ∷ es) n m r = Reaches-play es n (next e m) (Reaches-next e n m r)

abbrev pub fresh : Node env
fresh = enter_loop env genesis []

abbrev pub or_genesis : Outcome (Consensus env) → Consensus env
or_genesis (crash r) = genesis
or_genesis (ok c) = c

abbrev pub is_ok {ℓ} : {A : Type ℓ} → Outcome A → Bool
is_ok (ok a) = true
is_ok (crash r) = false

pub or_genesis-ok : (o : Outcome (Consensus env)) → is_ok o ≡ true → o ≡ ok (or_genesis o)
or_genesis-ok (ok c) p = refl
or_genesis-ok (crash r) p = cc

-- The state after an action, or the one before if it crashed.
abbrev pub or_before : Consensus env → Outcome (Unit {0} × Consensus env) → Consensus env
or_before c (ok (_, d)) = d
or_before c (crash r) = c

pub or_before-ok :
    (c : Consensus env) (o : Outcome (Unit {0} × Consensus env))
    → is_ok o ≡ true
    → o ≡ ok (tt, or_before c o)
or_before-ok c (ok (u, d)) p = refl
or_before-ok c (crash r) p = cc

-- Naming this on an `unfolding` line opens the whole replica.
unfoldable pub everything : Unit {0}
unfolding handle poll take_progress is_idle reset start tick send step propose new_header dispatch
    step_within on_timeout on_proposal check_certificate find_parent check_signatures
    timeout_is_signed accept_proposal store_and_vote vote_if_safe send_vote on_vote certify
    on_new_view new_view_from certify_timeout on_sync sync_blocks sync_block sync_parts sync_full
    next_round act enter_round collect_timeouts restart_timeouts lead_if_leader wait_for_data
    reset_timeout new_timeout send_new_view send_msg deliver update_prepare lock commit_block update
    update_parent update_from sync_view catch_up safe_node persist_proposal persist get_leader
    leader_of new_votes reset_votes start_votes collect_vote exists new_timeouts start_timeouts
    reset_timeouts collect_timeout add_message add_header add_not_found save_header save_data
    save_certificate save_view save_voted save_block set_tag get_header get_view get_voted get_tag
    get_tag_header get_tag_cert get_certificate header_hash hash_sum header_key data_key cert_key
    parts_key tag_bytes marshal_header marshal_certificate marshal_data marshal_signature
    pack_voters uint_field bytes_field message_field messages_field varint unmarshal_header
    header_field unmarshal_certificate certificate_field unmarshal_signature signature_field
    unmarshal unmarshal_loop read_tag read_uint_field read_bytes_field read_bytes take_bytes
    read_varint read_loop skip_field encode_uint64 decode_uint64 bytes_eq import_genesis
    new_consensus majority_of enter_loop ◌>>=◌
everything = tt
