-- ===== src/Utils/Genesis.antt =====
-- utils.go: ImportGenesis. The genesis block's three pointers are not nil.
pub mod Loads
use coded_hotterstuff.Prelude.{ℕ, ◌+◌, ◌%◌, ◌^◌, Option, none, some}
use coded_hotterstuff.Types.{Header, Certificate, Data}
use coded_hotterstuff.Env.{Env}
use coded_hotterstuff.Store.{
  ◌>>=◌, header_hash, get_header, save_header, save_certificate, save_data, save_view, save_voted,
  set_tag, prepare_tag, locked_tag, decide_tag,
}

module _ (env : Env) where
  open env use {Db}

  unfoldable pub write_genesis : Db → Header → Certificate → Data → Option Db
  write_genesis d h c payload = do
    let hash = header_hash env h
    d1 ← save_header env d h
    d2 ← save_certificate env d1 c
    d3 ← save_data env d2 hash payload
    d4 ← save_view env d3 ((h.view + 1) % 2 ^ 64)
    d5 ← save_voted env d4 h.view
    d6 ← set_tag env d5 prepare_tag hash
    d7 ← set_tag env d6 locked_tag hash
    set_tag env d7 decide_tag hash

  -- A store that has the block already is left alone.
  unfoldable pub import_genesis : Db → Header → Certificate → Data → Option Db
  unfolding write_genesis
  import_genesis d h c payload = elim (get_header env d (header_hash env h)) [
    | some _ ↦ some d
    | none ↦ write_genesis d h c payload
  ]
