-- ===== src/Examples/Walks.antt =====
-- The walk down a decided chain of two blocks.
use coded_hotterstuff.Store.{header_hash, decide_tag, save_header, set_tag}
use coded_hotterstuff.Store.Iterator.{visited-IsWalk, new_iterator, visited, IsWalk}
use coded_hotterstuff.Wire.Header.{marshal_header}
use coded_hotterstuff.Examples.Runs.{genesis_store, or_empty, env, genesis_header, everything}
use coded_hotterstuff.Prelude.{◌≡◌, refl, [], ◌∷◌}
use coded_hotterstuff.Types.{Header}

abbrev child : Header
child = record {
  view = 1;
  parent = marshal_header genesis_header;
  parent_view = 0;
  data_root = [];
  state_root = 3 ∷ [];
}

abbrev two_blocks : env.Db
two_blocks = or_empty (
    set_tag env (or_empty (save_header env (or_empty genesis_store) child)) decide_tag
      (header_hash env child))

walked : visited env two_blocks 5 new_iterator ≡ child ∷ genesis_header ∷ []
unfolding everything visited new_iterator
walked = refl

visited-IsWalk_example : IsWalk env two_blocks 5 (visited env two_blocks 5 new_iterator)
visited-IsWalk_example = visited-IsWalk env two_blocks 5
