-- ===== src/Store/Puts.antt =====
-- store.go: several writes in a row, and the reads after them.
use coded_hotterstuff.Prelude.{
  ℕ, ◌==◌, false, arith, ◌≡◌, refl, ◌≢◌, ◌∙◌, List, [], ◌∷◌, ◌++◌, Option, some, All,
}
use coded_hotterstuff.Prelude.Bytes.{Bytes}
use coded_hotterstuff.Env.{Env, IsMap}
use coded_hotterstuff.Store.{◌>>=◌}
use coded_hotterstuff.Store.Laws.{>>=-eq-some}

-- Keys with different first bytes.
pub apart : {a b : ℕ} {xs ys : Bytes} → (a == b) ≡ false → (a ∷ xs) ≢ (b ∷ ys)
apart {a} {b} {xs} {ys} h q = let same : a ≡ b = cc in ground arith

module _ (env : Env) where
  open env use {Db, db_get, db_put}

  unfoldable pub puts : Db → List (Bytes × Bytes) → Option Db
  puts d [] = some d
  puts d ((k, v) ∷ []) = db_put d k v
  puts d ((k, v) ∷ w ∷ ws) = do e ← db_put d k v; puts e (w ∷ ws)

module _ (env : Env) (map : IsMap env) where
  put-kept :
      (d e : env.Db) (k v j : Bytes) {w : Bytes}
      → env.db_put d k v ≡ some e
      → k ≢ j
      → env.db_get d j ≡ some w
      → env.db_get e j ≡ some w
  put-kept d e k v j p ne q = map.get-put_ne d k v e j p ne ∙ q

  puts-kept :
      (ws : List (Bytes × Bytes)) (d e : env.Db) (j : Bytes) {w : Bytes}
      → puts env d ws ≡ some e
      → All {A = Bytes × Bytes} (λ kv. kv.0 ≢ j) ws
      → env.db_get d j ≡ some w
      → env.db_get e j ≡ some w
  unfolding puts
  puts-kept [] d e j p apart q = let same : d ≡ e = cc in rw (← same) q
  puts-kept ((k, v) ∷ []) d e j p apart q = put-kept d e k v j p apart.0 q
  puts-kept ((k, v) ∷ w ∷ ws) d e j p apart q =
      let (d', p1, p2) = >>=-eq-some (env.db_put d k v) _ p in
      puts-kept (w ∷ ws) d' e j p2 apart.1 (put-kept d d' k v j p1 apart.0 q)

  pub puts-wrote :
      (before after : List (Bytes × Bytes)) (d e : env.Db) (k v : Bytes)
      → puts env d (before ++ (k, v) ∷ after) ≡ some e
      → All {A = Bytes × Bytes} (λ kv. kv.0 ≢ k) after
      → env.db_get e k ≡ some v
  unfolding puts
  puts-wrote [] [] d e k v p apart = map.get-put_self d k v e p
  puts-wrote [] (w ∷ ws) d e k v p apart =
      let (d', p1, p2) = >>=-eq-some (env.db_put d k v) _ p in
      puts-kept (w ∷ ws) d' e k p2 apart (map.get-put_self d k v d' p1)
  puts-wrote ((j, u) ∷ []) after d e k v p apart =
      let (d', p1, p2) = >>=-eq-some (env.db_put d j u) _ p in puts-wrote [] after d' e k v p2 apart
  puts-wrote ((j, u) ∷ w ∷ ws) after d e k v p apart =
      let (d', p1, p2) = >>=-eq-some (env.db_put d j u) _ p in
      puts-wrote (w ∷ ws) after d' e k v p2 apart

-- A database that takes every write takes several.
pub puts_total :
    (env : Env)
    → ((d : env.Db) (k v : Bytes) → (e : env.Db) × (env.db_put d k v ≡ some e))
    → (ws : List (Bytes × Bytes)) (d : env.Db) → (e : env.Db) × (puts env d ws ≡ some e)
unfolding puts
puts_total env writes [] d = (d, refl)
puts_total env writes ((k, v) ∷ []) d = writes d k v
puts_total env writes ((k, v) ∷ w ∷ ws) d =
    let (e, written) = writes d k v in
    let (r, rest) = puts_total env writes (w ∷ ws) e in (r, rw written rest)
