-- ===== src/Consensus/Evolves/Frame.antt =====
-- The rules for a change of state, a write to the store and a message, for any method of consensus.go.
use coded_hotterstuff.Prelude.{Bool, ℕ, ◌≤◌, ◌≡◌, refl, sym, ◌∙◌, ap, Option, none, some, arith}
use coded_hotterstuff.Exec.{Outcome, Reason, ok, crash, modify, continue}
use coded_hotterstuff.Exec.Moves.{After, Moves}
use coded_hotterstuff.Env.{Env, IsMap}
use coded_hotterstuff.Store.Laws.{SameCounters}
use coded_hotterstuff.Consensus.State.{Consensus, M, persist}
use coded_hotterstuff.Consensus.Evolves.{Evolves-order, Sends-none, IsDurable, Evolves}
use coded_hotterstuff.Types.{TimeoutCertificate}
use coded_hotterstuff.Exec.Moves.{Moves-lift}
use coded_hotterstuff.Progress.{Progress}
use coded_hotterstuff.Utils.Votes.{Votes}
use coded_hotterstuff.Utils.Timeouts.{Timeouts, start_timeouts, reset_timeouts}
use coded_hotterstuff.Consensus.State.{with_votes, with_timeouts, get_leader, leader_of}
use coded_hotterstuff.Consensus.Round.{restart_timeouts}

module _ (env : Env) (map : IsMap env) where
  abbrev pub Keeps : {A : Type 0} → M env A → Type 0
  Keeps m = Moves (Evolves env) m

  pub IsDurable-quiet :
      (c d : Consensus env)
      → d.view ≡ c.view
      → d.voted ≡ c.voted
      → SameCounters env c.store d.store
      → IsDurable env c
      → IsDurable env d
  IsDurable-quiet c d view voted same h = record {
    view_range = rw view h.view_range;
    voted_range = rw voted h.voted_range;
    view_saved = same.view ∙ h.view_saved ∙ ap (λ n. some (ok n)) (sym view);
    voted_saved = same.voted ∙ h.voted_saved ∙ ap (λ n. some (ok n)) (sym voted);
  }

  -- An action that sends nothing and leaves both counters alone.
  pub Evolves-quiet :
      (c d : Consensus env)
      → d.progress.messages ≡ c.progress.messages
      → d.voted ≡ c.voted
      → d.view ≡ c.view
      → d.id ≡ c.id
      → d.replicas ≡ c.replicas
      → c.prepare.view ≤ d.prepare.view
      → c.locked.view ≤ d.locked.view
      → c.commit.view ≤ d.commit.view
      → SameCounters env c.store d.store
      → Evolves env c d
  Evolves-quiet c d messages voted view id replicas prepare locked commit same = record {
    sent = rw messages (Sends-none _ _ _ (omega arith));
    prepare = prepare;
    locked = locked;
    commit = commit;
    same_id = id;
    same_replicas = replicas;
    durable = IsDurable-quiet c d view voted same;
  }

  pub SameCounters-refl : (d : env.Db) → SameCounters env d d
  SameCounters-refl d = record { view = refl; voted = refl }

  -- A change of the fields that the relation does not speak of.
  pub modify-Keeps :
      (f : Consensus env → Consensus env)
      → ((c : Consensus env) → Evolves env c (f c))
      → Keeps (modify f)
  unfolding modify
  modify-Keeps f h = record { from = h }

  pub After-persist :
      (Q : Unit {0} → Consensus env → Type 0) (f : env.Db → Option env.Db) (c : Consensus env)
      → ((d : env.Db) → f c.store ≡ some d → Q tt (record c { store = d }))
      → After (persist env f c) Q
  unfolding persist
  After-persist Q f c h = go (f c.store) h
    where
      go :
          (o : Option env.Db)
          → ((d : env.Db) → o ≡ some d → Q tt (record c { store = d }))
          → After
              (elim o [ none ↦ crash Reason.fatal | some d ↦ ok (tt, record c { store = d }) ])
              Q
      go none h = tt
      go (some d) h = h d refl

  -- The same in front of what follows.
  pub persist-then :
      {B : Type 0} (Q : B → Consensus env → Type 0) (f : env.Db → Option env.Db) (c : Consensus env)
      (g : Unit {0} → M env B)
      → ((d : env.Db) → f c.store ≡ some d → After (g tt (record c { store = d })) Q)
      → After (continue (persist env f c) g) Q
  unfolding persist
  persist-then Q f c g h = go (f c.store) h
    where
      go :
          (o : Option env.Db)
          → ((d : env.Db) → o ≡ some d → After (g tt (record c { store = d })) Q)
          → After
              (continue
                (elim o [ none ↦ crash Reason.fatal | some d ↦ ok (tt, record c { store = d }) ])
                g)
              Q
      go none h = tt
      go (some d) h = h d refl

  pub persist-Keeps :
      (f : env.Db → Option env.Db)
      → ((d e : env.Db) → f d ≡ some e → SameCounters env d e)
      → Keeps (persist env f)
  persist-Keeps f same = record {
    from = λ c.
        After-persist (λ _ d. Evolves env c d) f c
          λ d p.
            Evolves-quiet c (record c { store = d }) refl refl refl refl refl (omega arith)
              (omega arith) (omega arith) (same c.store d p);
  }

module _ (env : Env) (map : IsMap env) where
  -- The fields that the relation does not speak of may take any value.
  Evolves-rest :
      (c : Consensus env) (ticks timeout : ℕ) (votes : Votes) (timeouts : Timeouts)
      (cert : Option TimeoutCertificate) (progress : Progress) (waiting : Bool)
      → progress.messages ≡ c.progress.messages
      → Evolves env c (record c {
        ticks = ticks;
        timeout = timeout;
        votes = votes;
        timeouts = timeouts;
        timeout_cert = cert;
        progress = progress;
        waiting_data = waiting;
      })
  Evolves-rest c ticks timeout votes timeouts cert progress waiting p =
      Evolves-quiet env map c _ p refl refl refl refl (omega arith) (omega arith) (omega arith)
        (SameCounters-refl env map c.store)

  pub rest-Keeps :
      (ticks timeout : Consensus env → ℕ) (votes : Consensus env → Votes)
      (timeouts : Consensus env → Timeouts) (cert : Consensus env → Option TimeoutCertificate)
      (progress : Consensus env → Progress) (waiting : Consensus env → Bool)
      → ((c : Consensus env) → (progress c).messages ≡ c.progress.messages)
      → Keeps env map (
          modify (λ c. record c {
            ticks = ticks c;
            timeout = timeout c;
            votes = votes c;
            timeouts = timeouts c;
            timeout_cert = cert c;
            progress = progress c;
            waiting_data = waiting c;
          }))
  rest-Keeps ticks timeout votes timeouts cert progress waiting p = modify-Keeps env map _ (λ c.
      Evolves-rest c (ticks c) (timeout c) (votes c) (timeouts c) (cert c) (progress c) (waiting c)
        (p c))

  pub with_votes-Keeps : (f : Votes → Outcome (Bool × Votes)) → Keeps env map (with_votes env f)
  with_votes-Keeps f = record { from = λ c. go c (f c.votes) }
    where
      go :
          (c : Consensus env) (o : Outcome (Bool × Votes))
          → After
              (elim o [ ok (b, v) ↦ ok (b, record c { votes = v }) | crash r ↦ crash r ])
              (λ _ d. Evolves env c d)
      go c (ok (b, v)) = Evolves-rest c _ _ v _ _ _ _ refl
      go c (crash r) = tt

  pub with_timeouts-Keeps :
      (f : Timeouts → Outcome (Bool × Timeouts)) → Keeps env map (with_timeouts env f)
  with_timeouts-Keeps f = record { from = λ c. go c (f c.timeouts) }
    where
      go :
          (c : Consensus env) (o : Outcome (Bool × Timeouts))
          → After
              (elim o [ ok (b, t) ↦ ok (b, record c { timeouts = t }) | crash r ↦ crash r ])
              (λ _ d. Evolves env c d)
      go c (ok (b, t)) = Evolves-rest c _ _ _ t _ _ _ refl
      go c (crash r) = tt

  pub restart_timeouts-Keeps : (view : ℕ) → Keeps env map (restart_timeouts env view)
  unfolding restart_timeouts
  restart_timeouts-Keeps view = record {
    from = λ c. go c (start_timeouts view (reset_timeouts c.timeouts));
  }
    where
      go :
          (c : Consensus env) (o : Outcome Timeouts)
          → After
              (elim o [ ok t ↦ ok (tt, record c { timeouts = t }) | crash r ↦ crash r ])
              (λ _ d. Evolves env c d)
      go c (ok t) = Evolves-rest c _ _ _ t _ _ _ refl
      go c (crash r) = tt

  pub get_leader-Keeps : (view : ℕ) → Keeps env map (get_leader env view)
  unfolding get_leader
  get_leader-Keeps view = record {
    from = λ c. (Moves-lift (Evolves-order env) (leader_of c.replicas view)).from c;
  }
