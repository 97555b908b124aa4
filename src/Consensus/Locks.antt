-- ===== src/Consensus/Locks.antt =====
-- consensus.go: the rules by which the locked and the committed block move while one message is
-- handled, in terms of the store that the replica had, of the message's headers and of its
-- certificates.
pub mod Still
pub mod Update
pub mod Steps
pub mod Proposals
pub mod Machine
use coded_hotterstuff.Consensus.Machine.{new_header}
use coded_hotterstuff.Consensus.State.{sub64, Consensus}
use coded_hotterstuff.Exec.Moves.{IsPreorder}
use coded_hotterstuff.Store.{header_hash, save_header, get_header}
use coded_hotterstuff.Prelude.{
  none, refl, get_elem?, inr, ◌⊎◌, true, inl, some, ℕ, ◌∙◌, Option, ◌≡◌, List,
}
use coded_hotterstuff.Prelude.Bytes.{Bytes}
use coded_hotterstuff.Env.{Env}
use coded_hotterstuff.Types.{
  empty, vote, newview, sync, proposal, Message, Header, AggregatedSignature, Certificate, Block,
}
use coded_hotterstuff.Exec.{ok}

-- What a message brings: headers that may be stored, and the certificates that are checked, each a
-- block and a signature.
pub record Scope : Type 1 where
  pub own : Header → Type 0
  pub shown : Bytes → Option AggregatedSignature → Type 0

-- A proposal, by its header and the certificate of its parent. With neither it is no message at all.
abbrev pub of_proposal : Option Header → Option Certificate → Scope
of_proposal header cert = record {
  own = λ h. header ≡ some h;
  shown = λ block sig. (c : Certificate) × (cert ≡ some c) × (block ≡ c.block) × (sig ≡ c.sig);
}

module _ (env : Env) where
  -- The blocks of a Sync, each with a certificate for itself.
  abbrev pub of_sync : List Block → Scope
  of_sync blocks = record {
    own = λ h. (i : ℕ) × (b : Block) × (get_elem? blocks i ≡ some b) × (b.header ≡ some h);
    shown = λ block sig.
        (i : ℕ) × (b : Block) × (h : Header) × (c : Certificate) × (get_elem? blocks i ≡ some b)
        × (b.header ≡ some h)
        × (b.cert ≡ some c)
        × (block ≡ header_hash env h)
        × (sig ≡ c.sig);
  }

  -- What a message brings that a replica handles.
  abbrev pub scope_of : Message → Scope
  scope_of (proposal m) = of_proposal m.header m.parent_cert
  scope_of (sync m) = of_sync m.blocks
  scope_of (newview n) = of_proposal none none
  scope_of (vote v) = of_proposal none none
  scope_of empty = of_proposal none none

  -- The proposal that Send makes of the state `c`.
  abbrev pub scope_of_send : Bytes → Bytes → Consensus env → Scope
  scope_of_send state root c =
      of_proposal (some (new_header env state root c)) (some c.prepare_cert)

  -- Both stores hold the same headers.
  abbrev pub SameHeaders : env.Db → env.Db → Type 0
  SameHeaders d e = (hash : Bytes) → get_header env e hash ≡ get_header env d hash

module _ (env : Env) (scope : Scope) where
  -- A store that holds what `s` holds, and headers of the message that were saved since.
  pub data Grown (s : env.Db) : env.Db → Type 0 where
    as_before : {t : env.Db} → SameHeaders env s t → Grown s t
    then_saved :
        {t u v : env.Db} (h : Header)
        → Grown s t
        → scope.own h
        → save_header env t h ≡ some u
        → SameHeaders env u v
        → Grown s v

  -- A header with a certificate of the message that VerifyAggregated accepts: by its hash, or as what
  -- the store holds under the certificate's block.
  pub record IsCertified (s : env.Db) (h : Header) : Type 0 where
    pub block : Bytes
    pub sig : Option AggregatedSignature
    pub shown : scope.shown block sig
    pub checked : env.verifier.verify_aggregated block sig ≡ ok true
    pub found : (header_hash env h ≡ block) ⊎ (get_header env s block ≡ some h)

  -- `b` is the parent of a header that is certified, in a store that the replica had on the way from
  -- the store `s` to `e`.
  pub record IsLockable (s e : env.Db) (b : Header) : Type 0 where
    pub store : env.Db
    pub grown : Grown s store
    pub kept : Grown store e
    pub child : Header
    pub certified : IsCertified store child
    pub link : get_header env store child.parent ≡ some b

  -- `b` is the last of three headers, each the parent of the one before, whose views follow each
  -- other without a gap, and the first of which is certified, in a store between `s` and `e`.
  pub record IsCommittable (s e : env.Db) (b : Header) : Type 0 where
    pub store : env.Db
    pub grown : Grown s store
    pub kept : Grown store e
    pub grandchild : Header
    pub child : Header
    pub certified : IsCertified store grandchild
    pub links :
        (get_header env store grandchild.parent ≡ some child)
        × (get_header env store child.parent ≡ some b)
    pub gap_free : (sub64 grandchild.view child.view ≡ 1) × (sub64 child.view b.view ≡ 1)

  pub record Follows (c d : Consensus env) : Type 0 where
    pub grown : Grown c.store d.store
    pub lock_rule : (d.locked ≡ c.locked) ⊎ IsLockable c.store d.store d.locked
    pub commit_rule : (d.commit ≡ c.commit) ⊎ IsCommittable c.store d.store d.commit

  Grown-same : {s t u : env.Db} → Grown s t → SameHeaders env t u → Grown s u
  Grown-same (as_before p) q = as_before λ k. q k ∙ p k
  Grown-same (then_saved h g o w p) q = then_saved h g o w λ k. q k ∙ p k

  Grown-trans : {s t u : env.Db} → Grown s t → Grown t u → Grown s u
  Grown-trans g (as_before p) = Grown-same g p
  Grown-trans g (then_saved h k o w p) = then_saved h (Grown-trans g k) o w p

  widen_lock :
      {s t u v : env.Db} {b : Header} → Grown s t → Grown u v → IsLockable t u b → IsLockable s v b
  widen_lock g k l = record {
    store = l.store;
    grown = Grown-trans g l.grown;
    kept = Grown-trans l.kept k;
    child = l.child;
    certified = l.certified;
    link = l.link;
  }

  widen_commit :
      {s t u v : env.Db} {b : Header}
      → Grown s t
      → Grown u v
      → IsCommittable t u b
      → IsCommittable s v b
  widen_commit g k l = record {
    store = l.store;
    grown = Grown-trans g l.grown;
    kept = Grown-trans l.kept k;
    grandchild = l.grandchild;
    child = l.child;
    certified = l.certified;
    links = l.links;
    gap_free = l.gap_free;
  }

  -- The last change counts.
  last_change :
      {A : Type 0} (P Q R : A → Type 0) {a b c : A}
      → ((x : A) → Q x → P x)
      → ((x : A) → R x → P x)
      → (b ≡ a) ⊎ Q b
      → (c ≡ b) ⊎ R c
      → (c ≡ a) ⊎ P c
  last_change P Q R f g h (inr k) = inr (g _ k)
  last_change P Q R f g (inl h) (inl k) = inl (k ∙ h)
  last_change P Q R f g (inr h) (inl k) = inr (f _ (rw k h))

  pub Follows-order : IsPreorder Follows
  Follows-order = record {
    refl_at =
        λ c. record { grown = as_before λ k. refl; lock_rule = inl refl; commit_rule = inl refl };
    trans_at = λ c d e p q. record {
      grown = Grown-trans p.grown q.grown;
      lock_rule =
          last_change (IsLockable c.store e.store) (IsLockable c.store d.store)
            (IsLockable d.store e.store) (λ x. widen_lock (as_before λ k. refl) q.grown)
            (λ x. widen_lock p.grown (as_before λ k. refl)) p.lock_rule q.lock_rule;
      commit_rule =
          last_change (IsCommittable c.store e.store) (IsCommittable c.store d.store)
            (IsCommittable d.store e.store) (λ x. widen_commit (as_before λ k. refl) q.grown)
            (λ x. widen_commit p.grown (as_before λ k. refl)) p.commit_rule q.commit_rule;
    };
  }
