-- ===== src/Consensus/Chain.antt =====
-- consensus.go: the chain of blocks (updatePrepare, update, safeNode), the catching up with a
-- later view (syncView), and what a proposal stores.
use coded_hotterstuff.Prelude.{ℕ, ◌&&◌, ◌||◌, Bool, true, false, ltb, leb, ◌==◌, Option, none, some}
use coded_hotterstuff.Prelude.Bytes.{bytes_eq}
use coded_hotterstuff.Exec.{panic, pure, gets, modify, or_crash, ◌>>=◌, ◌>>◌}
use coded_hotterstuff.Types.{Header, Certificate, Data, TimeoutCertificate}
use coded_hotterstuff.Env.{Env}
use coded_hotterstuff.Store.{
  header_hash, get_header, save_header, save_data, save_certificate, save_view, set_tag,
  prepare_tag, locked_tag, decide_tag,
}
use coded_hotterstuff.Progress.{add_header}
use coded_hotterstuff.Consensus.State.{Consensus, M, when, persist, add64, sub64}
use coded_hotterstuff.Consensus.Round.{Self, next_round}

module _ (env : Env) where
  unfoldable pub update_prepare : Header → Certificate → M env (Unit {0})
  update_prepare header cert = do
    prepare ← gets (λ c. c.prepare)
    when env (ltb prepare.view header.view) (do
      modify (λ c. record c { prepare = header; prepare_cert = cert })
      persist env (λ d. set_tag env d prepare_tag (header_hash env header))
      modify (λ c. record c { progress = add_header header false c.progress }))

  -- 2-chain locked, gaps are allowed
  unfoldable pub lock : Header → M env (Unit {0})
  lock gparent = do
    locked ← gets (λ c. c.locked)
    when env (ltb locked.view gparent.view) (do
      modify (λ c. record c { locked = gparent })
      persist env (λ d. set_tag env d locked_tag (header_hash env gparent)))

  -- 3-chain commited must be without gaps
  unfoldable pub commit_block : Header → Header → Header → M env (Unit {0})
  commit_block parent gparent ggparent = do
    commit ← gets (λ c. c.commit)
    when env
        (sub64 parent.view gparent.view == 1
          && sub64 gparent.view ggparent.view == 1
          && ltb commit.view ggparent.view)
        (do
          modify (λ c. record c { commit = ggparent })
          persist env (λ d. set_tag env d decide_tag (header_hash env ggparent))
          modify (λ c. record c { progress = add_header ggparent true c.progress }))

  unfoldable pub update_from : Header → Header → Option Header → M env (Unit {0})
  unfolding lock commit_block
  update_from parent gparent none = pure tt
  update_from parent gparent (some ggparent) = do lock gparent; commit_block parent gparent ggparent

  unfoldable pub update_parent : Header → Option Header → M env (Unit {0})
  unfolding update_from
  update_parent parent none = pure tt
  update_parent parent (some gparent) = do
    d ← gets (λ c. c.store)
    update_from parent gparent (get_header env d gparent.parent)

  -- The certificate that `update` is given is not used.
  unfoldable pub update : Header → M env (Unit {0})
  unfolding update_parent
  update parent = do d ← gets (λ c. c.store); update_parent parent (get_header env d parent.parent)

  -- Both branches of syncView, on the view that the header or the timeout certificate shows.
  unfoldable pub catch_up : Self env → ℕ → M env (Unit {0})
  catch_up self shown = do
    view ← gets (λ c. c.view)
    when env (leb view shown) (do
      modify (λ c. record c { view = add64 shown 1 })
      persist env (λ d. save_view env d (add64 shown 1))
      next_round env self false)

  -- The certificate of the header is not used.
  unfoldable pub sync_view : Self env → Header → Option TimeoutCertificate → M env (Unit {0})
  unfolding catch_up
  sync_view self header none = catch_up self header.view
  sync_view self header (some tcert) = catch_up self tcert.view

  unfoldable pub safe_node : Header → Consensus env → Bool
  safe_node header c = elim (get_header env c.store header.parent) [
    | none ↦ false
    | some parent ↦
        bytes_eq header.parent (header_hash env c.locked)
        || bytes_eq header.parent (header_hash env c.prepare)
        || ltb c.locked.view parent.view
  ]

  -- A nil Data panics in its Marshal, after the header was stored.
  unfoldable pub persist_proposal : Header → Option Data → Certificate → M env (Unit {0})
  persist_proposal header payload cert = do
    persist env (λ d. save_header env d header)
    txs ← or_crash panic payload
    persist env (λ d. save_data env d (header_hash env header) txs)
    persist env (λ d. save_certificate env d cert)
