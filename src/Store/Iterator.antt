-- ===== src/Store/Iterator.antt =====
-- store.go: ChainIterator. A header, a certificate and data that are nil are `none`; of an error it
-- is kept only that there is one.
use coded_hotterstuff.Prelude.Bytes.{Bytes}
use coded_hotterstuff.Prelude.{
  ℕ, zero, suc, ◌≡◌, refl, ap, sym, Bool, true, false, not, List, [], ◌∷◌, Option, none, some,
}
use coded_hotterstuff.Exec.{Outcome, ok, crash, panic}
use coded_hotterstuff.Types.{Header, Certificate, Data}
use coded_hotterstuff.Env.{Env}
use coded_hotterstuff.Store.{
  header_hash, get_header, get_certificate, get_data, get_tag_header, prepare_tag, decide_tag,
}

pub record ChainIterator : Type 0 where
  pub failed : Bool
  pub header : Option Header
  pub certificate : Option Certificate
  pub payload : Option Data

abbrev is_nil {ℓ} : {A : Type ℓ} → Option A → Bool
is_nil none = true
is_nil (some a) = false

-- NewChainIterator
unfoldable pub new_iterator : ChainIterator
new_iterator = record { failed = false; header = none; certificate = none; payload = none }

unfoldable pub valid : ChainIterator → Bool
valid it = not it.failed

module _ (env : Env) (store : env.Db) where
  -- NewChainIteratorFromLatest
  unfoldable pub iterator_from_latest : Option ChainIterator
  iterator_from_latest = elim (get_tag_header env store prepare_tag) [
    | none ↦ none
    | some h ↦ some (record { failed = false; header = some h; certificate = none; payload = none })
  ]

  following : Option Header → Option Header
  following none = get_tag_header env store decide_tag
  following (some h) = get_header env store h.parent

  moved : Option Header → ChainIterator
  moved h = record { failed = is_nil h; header = h; certificate = none; payload = none }

  -- ChainIterator.Next: a header that is not found leaves nil, from where the next call starts over.
  unfoldable pub next_header : ChainIterator → ChainIterator
  unfolding following moved
  next_header it = moved (following it.header)

  hash_of : Option Header → Outcome Bytes
  hash_of none = crash panic
  hash_of (some h) = ok (header_hash env h)

  loaded_certificate : Outcome Bytes → ChainIterator → Outcome (Option Certificate × ChainIterator)
  loaded_certificate (crash r) it = crash r
  loaded_certificate (ok hash) it =
      let found = get_certificate env store hash in
      ok (found, record it { certificate = found; failed = is_nil found })

  -- ChainIterator.Ceritificate: read once for a header.
  unfoldable pub certificate_of : ChainIterator → Outcome (Option Certificate × ChainIterator)
  unfolding hash_of loaded_certificate
  certificate_of it = elim it.certificate [
    | some c ↦ ok (some c, it)
    | none ↦ loaded_certificate (hash_of it.header) it
  ]

  loaded_data : Outcome Bytes → ChainIterator → Outcome (Option Data × ChainIterator)
  loaded_data (crash r) it = crash r
  loaded_data (ok hash) it =
      let found = get_data env store hash in
      ok (found, record it { payload = found; failed = is_nil found })

  -- ChainIterator.Data
  unfoldable pub data_of : ChainIterator → Outcome (Option Data × ChainIterator)
  unfolding hash_of loaded_data
  data_of it = elim it.payload [
    | some x ↦ ok (some x, it)
    | none ↦ loaded_data (hash_of it.header) it
  ]

  -- The headers that up to `n` calls of Next come to, as long as the iterator is valid.
  headers_from : Option Header → (ChainIterator → List Header) → ChainIterator → List Header
  headers_from none go_on it = []
  headers_from (some h) go_on it = h ∷ go_on it

  unfoldable pub visited : ℕ → ChainIterator → List Header
  unfolding headers_from next_header
  visited zero it = []
  visited (suc n) it = headers_from (next_header it).header (visited n) (next_header it)

  -- At most `n` headers, each of them the parent, in the store, of the one before it. There are fewer
  -- than `n` only if the store does not have the parent of the last.
  abbrev pub Linked : ℕ → Header → List Header → Type 0
  Linked zero h ks = ks ≡ []
  Linked (suc n) h [] = get_header env store h.parent ≡ none
  Linked (suc n) h (k ∷ ks) = (get_header env store h.parent ≡ some k) × Linked n k ks

  visited-Linked :
      (n : ℕ) (h : Header) (it : ChainIterator) → it.header ≡ some h → Linked n h (visited n it)
  unfolding visited next_header headers_from following moved
  visited-Linked zero h it p = refl
  visited-Linked (suc n) h it p =
      step (following it.header) (ap following p) (λ k. visited-Linked n k (moved (some k)) refl)
    where
      step :
          (o : Option Header)
          → o ≡ get_header env store h.parent
          → ((k : Header) → Linked n k (visited n (moved (some k))))
          → Linked (suc n) h (headers_from o (visited n) (moved o))
      step none q rest = sym q
      step (some k) q rest = (sym q, rest k)

  -- A walk down the decided chain, of `n` headers unless the store does not have one of them.
  abbrev pub IsWalk : ℕ → List Header → Type 0
  IsWalk zero hs = hs ≡ []
  IsWalk (suc n) [] = get_tag_header env store decide_tag ≡ none
  IsWalk (suc n) (h ∷ hs) = (get_tag_header env store decide_tag ≡ some h) × Linked n h hs

  -- The headers that a new iterator comes to in `n` calls of Next, up to the first that fails, are the
  -- decided header, its parent in the store, the parent of that, and so on: `n` headers, or fewer if
  -- the store has no decided header or does not have the parent of the last header.
  pub visited-IsWalk : (n : ℕ) → IsWalk n (visited n new_iterator)
  unfolding visited next_header headers_from following moved new_iterator
  visited-IsWalk zero = refl
  visited-IsWalk (suc n) = step (get_tag_header env store decide_tag) refl
    where
      step :
          (o : Option Header)
          → get_tag_header env store decide_tag ≡ o
          → IsWalk (suc n) (headers_from o (visited n) (moved o))
      step none q = q
      step (some h) q = (q, visited-Linked n h (moved (some h)) refl)
