-- ===== src/Consensus/Evolves/Voting.antt =====
-- consensus.go, sendVote, sendNewView and sendMsg: `Evolves` for the messages.
use coded_hotterstuff.Prelude.{ℕ, ◌<◌, ◌≡◌, refl, ◌∙◌, List, [], ◌∷◌, some, arith}
use coded_hotterstuff.Prelude.Bytes.{IsU64}
use coded_hotterstuff.Exec.{ok, ◌>>=◌}
use coded_hotterstuff.Exec.Moves.{After, lift-then, Moves-pure, After-then, moves_rules}
use coded_hotterstuff.Types.{proposal, Proposal, Message, Header, vote, newview}
use coded_hotterstuff.Env.{Env, IsMap}
use coded_hotterstuff.Store.{header_hash, save_voted, save_view, get_voted, get_view}
use coded_hotterstuff.Store.Laws.{get_voted-save_voted, get_view-save_view}
use coded_hotterstuff.Progress.{add_message}
use coded_hotterstuff.Utils.Votes.{start_votes}
use coded_hotterstuff.Consensus.State.{Consensus, get_leader, leader_of, add64, sub64}
use coded_hotterstuff.Consensus.Round.{Self, deliver, send_msg, send_new_view}
use coded_hotterstuff.Consensus.Handlers.{send_vote}
use coded_hotterstuff.Consensus.Evolves.{Sends-none, vote_views, IsDurable, Evolves, Evolves-order}
use coded_hotterstuff.Consensus.Evolves.Frame.{
  Keeps, IsDurable-quiet, SameCounters-refl, modify-Keeps, persist-then,
}

module _ (env : Env) (map : IsMap env) where
  pub deliver-Keeps :
      (self : Self env)
      → ((m : Message) → Keeps env map (self m))
      → (m : Message) (ids : List ℕ) → Keeps env map (deliver env self m ids)
  unfolding deliver
  deliver-Keeps self keeps m [] = Moves-pure (Evolves-order env) tt
  deliver-Keeps self keeps m (to ∷ ids) =
      let later = deliver-Keeps self keeps m ids in search (moves_rules, Evolves-order)

  -- A proposal, to every replica and first to this one.
  pub send_proposal-Keeps :
      (self : Self env)
      → ((m : Message) → Keeps env map (self m))
      → (m : Proposal) → Keeps env map (send_msg env self (proposal m) [])
  unfolding send_msg add_message vote_views
  send_proposal-Keeps self keeps m =
      let put =
        modify-Keeps env map (λ c. record c { progress = add_message (proposal m) [] c.progress })
          (λ c. record {
            sent = record {
              new = record { recipients = []; message = proposal m } ∷ [];
              appended = refl;
              rising = omega arith;
            };
            prepare = omega arith;
            locked = omega arith;
            commit = omega arith;
            same_id = refl;
            same_replicas = refl;
            durable =
                λ h. IsDurable-quiet env map c _ refl refl (SameCounters-refl env map c.store) h;
          }) in
      let later = deliver-Keeps self keeps (proposal m) [] in search (moves_rules, Evolves-order)

  -- A message to one replica, sent from a state in which it may be sent.
  send_msg-from :
      (self : Self env)
      → ((m : Message) → Keeps env map (self m))
      → (c d : Consensus env) (m : Message) (to : ℕ)
      → Evolves env c (record d { progress = add_message m (to ∷ []) d.progress })
      → After (send_msg env self m (to ∷ []) d) (λ _ e. Evolves env c e)
  unfolding send_msg ◌>>=◌
  send_msg-from self keeps c d m to h =
      After-then (Evolves-order env) c (record d { progress = add_message m (to ∷ []) d.progress })
        (deliver env self m (to ∷ [])) h (deliver-Keeps self keeps m (to ∷ []))

  IsDurable-voted :
      (c : Consensus env) (v : ℕ) (d : env.Db)
      → save_voted env c.store v ≡ some d
      → IsU64 v
      → IsDurable env c
      → (get_voted env d ≡ some (ok v)) × (get_view env d ≡ some (ok c.view))
  IsDurable-voted c v d p range h =
      let (voted, view) = get_voted-save_voted env map c.store v d p range in
      (voted, view ∙ h.view_saved)

  -- The new-view message of a round that is later than the last vote.
  pub send_new_view-from :
      (self : Self env)
      → ((m : Message) → Keeps env map (self m))
      → (c : Consensus env) → c.voted < sub64 c.view 1
      → After (send_new_view env self c) (λ _ d. Evolves env c d)
  unfolding send_new_view get_leader ◌>>=◌ add_message vote_views
  send_new_view-from self keeps c later =
      lift-then (λ _ d. Evolves env c d) (leader_of c.replicas c.view) c _
        λ leader _.
          lift-then {B = Unit {0}} (λ _ d. Evolves env c d) (env.signer.sign _) c _
            λ sig _.
              persist-then env map (λ _ d. Evolves env c d) (λ d. save_voted env d (sub64 c.view 1))
                (record c { voted = sub64 c.view 1 }) _
                λ d p.
                  let m = newview (record {
                    view = sub64 c.view 1;
                    voter = c.id;
                    sig = sig;
                    cert = some c.prepare_cert;
                  }) in
                  send_msg-from self keeps c (record c { voted = sub64 c.view 1; store = d }) m
                    leader
                    (record {
                      sent = record {
                        new = record { recipients = leader ∷ []; message = m } ∷ [];
                        appended = refl;
                        rising = omega arith;
                      };
                      prepare = omega arith;
                      locked = omega arith;
                      commit = omega arith;
                      same_id = refl;
                      same_replicas = refl;
                      durable = λ h.
                          let (voted, view) = IsDurable-voted c _ d p (omega arith) h in
                          record {
                            view_range = h.view_range;
                            voted_range = omega arith;
                            view_saved = view;
                            voted_saved = voted;
                          };
                    })

  -- A vote for the block of the current round, which is later than the last vote.
  pub send_vote-from :
      (self : Self env)
      → ((m : Message) → Keeps env map (self m))
      → (h : Header) (c : Consensus env) → c.voted < h.view
      → h.view ≡ c.view
      → After (send_vote env self h c) (λ _ d. Evolves env c d)
  unfolding send_vote get_leader ◌>>=◌ add_message vote_views
  send_vote-from self keeps h c later now =
      persist-then env map (λ _ d. Evolves env c d) (λ d. save_voted env d h.view)
        (record c { voted = h.view }) _
        λ d p.
          let voting : Consensus env = record c {
            voted = h.view;
            store = d;
            votes = start_votes env h c.votes;
          } in
          lift-then {B = Unit {0}} (λ _ d. Evolves env c d) (env.signer.sign _) voting _
            λ sig _.
              lift-then {B = Unit {0}} (λ _ d. Evolves env c d)
                (leader_of c.replicas (add64 h.view 1)) voting _
                λ leader _.
                  let m = vote (record {
                    block = header_hash env h;
                    view = h.view;
                    voter = c.id;
                    sig = sig;
                  }) in
                  send_msg-from self keeps c voting m leader (record {
                    sent = record {
                      new = record { recipients = leader ∷ []; message = m } ∷ [];
                      appended = refl;
                      rising = (omega arith, omega arith);
                    };
                    prepare = omega arith;
                    locked = omega arith;
                    commit = omega arith;
                    same_id = refl;
                    same_replicas = refl;
                    durable = λ g.
                        let range : IsU64 h.view = rw now g.view_range in
                        let (voted, view) = IsDurable-voted c _ d p range g in
                        record {
                          view_range = g.view_range;
                          voted_range = range;
                          view_saved = view;
                          voted_saved = voted;
                        };
                  })

  -- A move to a later view, with the view in the store.
  pub set_view-Evolves :
      (c : Consensus env) (v : ℕ) (d : env.Db)
      → IsU64 v
      → save_view env c.store v ≡ some d
      → Evolves env c (record c { view = v; store = d })
  unfolding vote_views
  set_view-Evolves c v d range p = record {
    sent = Sends-none _ _ _ (omega arith);
    prepare = omega arith;
    locked = omega arith;
    commit = omega arith;
    same_id = refl;
    same_replicas = refl;
    durable = λ h.
        let (view, voted) = get_view-save_view env map c.store v d p range in
        record {
          view_range = range;
          voted_range = h.voted_range;
          view_saved = view;
          voted_saved = voted ∙ h.voted_saved;
        };
  }
