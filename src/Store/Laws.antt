-- ===== src/Store/Laws.antt =====
-- store.go: the counters after a write.
use mathlib.Core.Option
use coded_hotterstuff.Prelude.{ℕ, ◌≡◌, refl, ap, ◌∙◌, Option, none, some}
use coded_hotterstuff.Prelude.Bytes.{Bytes, IsU64}
use coded_hotterstuff.Exec.{ok}
use coded_hotterstuff.Types.{Header, Certificate, Data}
use coded_hotterstuff.Encoding.{decode_uint64, decode_uint64-encode_uint64}
use coded_hotterstuff.Env.{Env, IsMap}
use coded_hotterstuff.Store.{
  ◌>>=◌, Tag, save_header, save_certificate, save_data, set_tag, save_view, get_view, save_voted,
  get_voted, save_block,
}
use coded_hotterstuff.Store.Keys.{
  IsApart, header_key-IsApart, data_key-IsApart, cert_key-IsApart, tag_bytes-IsApart,
}

-- Inversion of a chain of fallible calls.
pub >>=-eq-some {ℓ κ} :
    {A : Type ℓ} {B : Type κ} (m : Option A) (f : A → Option B) {b : B}
    → (m >>= f) ≡ some b
    → (a : A) × (m ≡ some a) × (f a ≡ some b)
>>=-eq-some none f h = cc
>>=-eq-some (some a) f h = (a, refl, h)

module _ (env : Env) where
  -- Both counters read the same in both stores.
  pub record SameCounters (d e : env.Db) : Type 0 where
    pub view : get_view env e ≡ get_view env d
    pub voted : get_voted env e ≡ get_voted env d

module _ (env : Env) (map : IsMap env) where
  pub put-SameCounters :
      (d : env.Db) (k v : Bytes) (e : env.Db)
      → env.db_put d k v ≡ some e
      → IsApart k
      → SameCounters env d e
  unfolding get_view get_voted
  put-SameCounters d k v e p apart = record {
    view = ap (Option.map decode_uint64) (map.get-put_ne d k v e _ p apart.view);
    voted = ap (Option.map decode_uint64) (map.get-put_ne d k v e _ p apart.voted);
  }

  pub set_tag-SameCounters :
      (d : env.Db) (t : Tag) (h : Bytes) (e : env.Db)
      → set_tag env d t h ≡ some e
      → SameCounters env d e
  unfolding set_tag
  set_tag-SameCounters d t h e p = put-SameCounters d _ _ e p (tag_bytes-IsApart t)

  pub save_header-SameCounters :
      (d : env.Db) (h : Header) (e : env.Db) → save_header env d h ≡ some e → SameCounters env d e
  unfolding save_header
  save_header-SameCounters d h e p = put-SameCounters d _ _ e p (header_key-IsApart _)

  pub save_certificate-SameCounters :
      (d : env.Db) (c : Certificate) (e : env.Db)
      → save_certificate env d c ≡ some e
      → SameCounters env d e
  unfolding save_certificate
  save_certificate-SameCounters d c e p = put-SameCounters d _ _ e p (cert_key-IsApart _)

  pub save_data-SameCounters :
      (d : env.Db) (h : Bytes) (x : Data) (e : env.Db)
      → save_data env d h x ≡ some e
      → SameCounters env d e
  unfolding save_data
  save_data-SameCounters d h x e p = put-SameCounters d _ _ e p (data_key-IsApart _)

  -- A saved uint64 is read back.
  pub get_voted-save_voted :
      (d : env.Db) (v : ℕ) (e : env.Db)
      → save_voted env d v ≡ some e
      → IsU64 v
      → (get_voted env e ≡ some (ok v)) × (get_view env e ≡ get_view env d)
  unfolding get_voted get_view save_voted
  get_voted-save_voted d v e p h = (
    rw (map.get-put_self d _ _ e p) (ap some (decode_uint64-encode_uint64 v h)),
    ap (Option.map decode_uint64) (map.get-put_ne d _ _ e _ p (λ q. cc)),
  )

  pub get_view-save_view :
      (d : env.Db) (v : ℕ) (e : env.Db)
      → save_view env d v ≡ some e
      → IsU64 v
      → (get_view env e ≡ some (ok v)) × (get_voted env e ≡ get_voted env d)
  unfolding get_voted get_view save_view
  get_view-save_view d v e p h = (
    rw (map.get-put_self d _ _ e p) (ap some (decode_uint64-encode_uint64 v h)),
    ap (Option.map decode_uint64) (map.get-put_ne d _ _ e _ p (λ q. cc)),
  )

  pub SameCounters-trans :
      {d e f : env.Db} → SameCounters env d e → SameCounters env e f → SameCounters env d f
  SameCounters-trans p q = record { view = q.view ∙ p.view; voted = q.voted ∙ p.voted }

  pub save_block-SameCounters :
      (d : env.Db) (h : Header) (c : Certificate) (x : Data) (e : env.Db)
      → save_block env d h c x ≡ some e
      → SameCounters env d e
  unfolding save_block
  save_block-SameCounters d h c x e p =
      let (d1, p1, q1) = >>=-eq-some (save_header env d h) _ p in
      let (d2, p2, q2) = >>=-eq-some (save_certificate env d1 c) _ q1 in
      SameCounters-trans (save_header-SameCounters d h d1 p1) (
        SameCounters-trans (save_certificate-SameCounters d1 c d2 p2)
          (save_data-SameCounters d2 _ x e q2))
