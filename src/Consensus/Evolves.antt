-- ===== src/Consensus/Evolves.antt =====
-- consensus.go: a relation between the states of a replica before and after any of its methods.
pub mod Frame
pub mod Voting
pub mod Blocks
pub mod Rounds
pub mod Steps
pub mod Sync
pub mod Machine
use coded_hotterstuff.Prelude.{
  true, Option, inr, inl, ◌⊎◌, ℕ, ◌+◌, ◌≤◌, ◌<◌, ◌≡◌, refl, sym, ◌∙◌, ap, List, [], ◌∷◌, ◌++◌,
  append-nil, append_assoc, arith, some,
}
use coded_hotterstuff.Prelude.Bytes.{Bytes, IsU64}
use coded_hotterstuff.Exec.{ok}
use coded_hotterstuff.Exec.Moves.{IsPreorder}
use coded_hotterstuff.Types.{
  AggregatedSignature, Header, Message, proposal, newview, vote, sync, empty,
}
use coded_hotterstuff.Env.{Env}
use coded_hotterstuff.Store.{header_hash, get_header, get_view, get_voted}
use coded_hotterstuff.Progress.{MsgTo}
use coded_hotterstuff.Consensus.State.{sub64, Consensus}

-- The views of the votes among the messages.
vote_view : Message → List ℕ → List ℕ
vote_view (vote v) rest = v.view ∷ rest
vote_view (proposal m) rest = rest
vote_view (newview m) rest = rest
vote_view (sync m) rest = rest
vote_view empty rest = rest

unfoldable pub vote_views : List MsgTo → List ℕ
unfolding vote_view
vote_views [] = []
vote_views (m ∷ ms) = vote_view m.message (vote_views ms)

vote_view-append : (m : Message) (xs ys : List ℕ) → vote_view m (xs ++ ys) ≡ vote_view m xs ++ ys
unfolding vote_view
vote_view-append (vote v) xs ys = refl
vote_view-append (proposal m) xs ys = refl
vote_view-append (newview m) xs ys = refl
vote_view-append (sync m) xs ys = refl
vote_view-append empty xs ys = refl

pub vote_views-append :
    (xs ys : List MsgTo) → vote_views (xs ++ ys) ≡ vote_views xs ++ vote_views ys
unfolding vote_views
vote_views-append [] ys = refl
vote_views-append (m ∷ ms) ys =
    rw (vote_views-append ms ys) (vote_view-append m.message (vote_views ms) (vote_views ys))

-- The numbers rise strictly, from above `lo`, and the last is at most `hi`.
abbrev pub Between : ℕ → List ℕ → ℕ → Type 0
Between lo [] hi = lo ≤ hi
Between lo (v ∷ vs) hi = (lo < v) × Between v vs hi

pub Between-lower : (lo mid hi : ℕ) (vs : List ℕ) → lo ≤ mid → Between mid vs hi → Between lo vs hi
Between-lower lo mid hi [] h k = omega arith
Between-lower lo mid hi (v ∷ vs) h k = (omega arith, k.1)

pub Between-le : (lo hi : ℕ) (vs : List ℕ) → Between lo vs hi → lo ≤ hi
Between-le lo hi [] h = h
Between-le lo hi (v ∷ vs) h = omega (arith, h.0, Between-le v hi vs h.1)

pub Between-append :
    (lo mid hi : ℕ) (xs ys : List ℕ)
    → Between lo xs mid
    → Between mid ys hi
    → Between lo (xs ++ ys) hi
Between-append lo mid hi [] ys h k = Between-lower lo mid hi ys h k
Between-append lo mid hi (x ∷ xs) ys h k = (h.0, Between-append x mid hi xs ys h.1 k)

-- From the messages `ms` and the last vote `lo` to `ms'` and `hi`: the votes among the new messages
-- are for views after `lo`, one after the other, and none is later than `hi`.
pub record Sends (ms : List MsgTo) (lo : ℕ) (ms' : List MsgTo) (hi : ℕ) : Type 0 where
  pub new : List MsgTo
  pub appended : ms' ≡ ms ++ new
  pub rising : Between lo (vote_views new) hi

pub Sends-none : (ms : List MsgTo) (lo hi : ℕ) → lo ≤ hi → Sends ms lo ms hi
unfolding vote_views
Sends-none ms lo hi h = record { new = []; appended = sym (append-nil ms); rising = h }

Sends-trans :
    {ms ms' ms'' : List MsgTo} {lo mid hi : ℕ}
    → Sends ms lo ms' mid
    → Sends ms' mid ms'' hi
    → Sends ms lo ms'' hi
Sends-trans {ms} {ms'} {ms''} {lo} {mid} {hi} h k = record {
  new = h.new ++ k.new;
  appended = k.appended ∙ ap (λ l. l ++ k.new) h.appended ∙ append_assoc ms h.new k.new;
  rising =
      rw (vote_views-append h.new k.new)
        (Between-append lo mid hi (vote_views h.new) (vote_views k.new) h.rising k.rising);
}

module _ (env : Env) where
  -- The counters are uint64s, and the store holds what the replica works with.
  pub record IsDurable (c : Consensus env) : Type 0 where
    pub view_range : IsU64 c.view
    pub voted_range : IsU64 c.voted
    pub view_saved : get_view env c.store ≡ some (ok c.view)
    pub voted_saved : get_voted env c.store ≡ some (ok c.voted)

  pub record Evolves (c d : Consensus env) : Type 0 where
    pub sent : Sends c.progress.messages c.voted d.progress.messages d.voted
    pub prepare : c.prepare.view ≤ d.prepare.view
    pub locked : c.locked.view ≤ d.locked.view
    pub commit : c.commit.view ≤ d.commit.view
    pub same_id : d.id ≡ c.id
    pub same_replicas : d.replicas ≡ c.replicas
    pub durable : IsDurable c → IsDurable d

  pub Evolves-order : IsPreorder Evolves
  Evolves-order = record {
    refl_at = λ c. record {
      sent = Sends-none _ _ _ (omega arith);
      prepare = omega arith;
      locked = omega arith;
      commit = omega arith;
      same_id = refl;
      same_replicas = refl;
      durable = λ h. h;
    };
    trans_at = λ c d e h k. record {
      sent = Sends-trans h.sent k.sent;
      prepare = omega (arith, h.prepare, k.prepare);
      locked = omega (arith, h.locked, k.locked);
      commit = omega (arith, h.commit, k.commit);
      same_id = k.same_id ∙ h.same_id;
      same_replicas = k.same_replicas ∙ h.same_replicas;
      durable = λ g. k.durable (h.durable g);
    };
  }
