-- ===== src/Store/Keys.antt =====
-- store.go: the keys of the two counters, the view and the last voted view, and the other keys.
use coded_hotterstuff.Prelude.{◌≢◌, [], ◌∷◌}
use coded_hotterstuff.Prelude.Bytes.{Bytes}
use coded_hotterstuff.Store.{Tag, prepare_tag, locked_tag, decide_tag, view_bucket, voted_bucket}
use coded_hotterstuff.Store.{header_key, data_key, cert_key, tag_bytes}

-- A key under which neither counter is kept.
pub record IsApart (k : Bytes) : Type 0 where
  pub view : k ≢ view_bucket ∷ []
  pub voted : k ≢ voted_bucket ∷ []

pub header_key-IsApart : (h : Bytes) → IsApart (header_key h)
unfolding header_key
header_key-IsApart h = record { view = λ e. cc; voted = λ e. cc }

pub data_key-IsApart : (h : Bytes) → IsApart (data_key h)
unfolding data_key
data_key-IsApart h = record { view = λ e. cc; voted = λ e. cc }

pub cert_key-IsApart : (h : Bytes) → IsApart (cert_key h)
unfolding cert_key
cert_key-IsApart h = record { view = λ e. cc; voted = λ e. cc }

pub tag_bytes-IsApart : (t : Tag) → IsApart (tag_bytes t)
unfolding tag_bytes
tag_bytes-IsApart prepare_tag = record { view = λ e. cc; voted = λ e. cc }
tag_bytes-IsApart locked_tag = record { view = λ e. cc; voted = λ e. cc }
tag_bytes-IsApart decide_tag = record { view = λ e. cc; voted = λ e. cc }
