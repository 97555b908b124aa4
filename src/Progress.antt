-- ===== src/Progress.antt =====
-- progress.go: what the consensus hands to its driver.
use coded_hotterstuff.Prelude.{ℕ, Bool, true, false, not, ◌&&◌, List, [], ◌∷◌, ◌++◌}
use coded_hotterstuff.Prelude.Bytes.{Bytes}
use coded_hotterstuff.Types.{Header, Message}

-- A nil recipient list, a broadcast, is the empty list: the only caller that passes no recipient
-- passes nil.
pub record MsgTo : Type 0 where
  pub recipients : List ℕ
  pub message : Message

pub record BlockRef : Type 0 where
  pub hash : Bytes
  pub view : ℕ

pub record BlockEvent : Type 0 where
  pub header : Header
  pub finalized : Bool

pub record Progress : Type 0 where
  pub messages : List MsgTo
  pub events : List BlockEvent
  pub not_found : List BlockRef
  pub waiting_data : Bool

abbrev pub null {ℓ} : {A : Type ℓ} → List A → Bool
null [] = true
null (x ∷ xs) = false

unfoldable pub broadcast : MsgTo → Bool
broadcast m = null m.recipients

unfoldable pub is_empty : Progress → Bool
is_empty p = null p.messages && null p.events && not p.waiting_data

unfoldable pub add_message : Message → List ℕ → Progress → Progress
add_message msg ids p = record p {
  messages = p.messages ++ record { recipients = ids; message = msg } ∷ [];
}

unfoldable pub add_header : Header → Bool → Progress → Progress
add_header h finalized p = record p {
  events = p.events ++ record { header = h; finalized = finalized } ∷ [];
}

unfoldable pub add_not_found : ℕ → Bytes → Progress → Progress
add_not_found view hash p = record p {
  not_found = p.not_found ++ record { hash = hash; view = view } ∷ [];
}

-- `NotFound` is not reset.
unfoldable pub reset : Progress → Progress
reset p = record p { waiting_data = false; messages = []; events = [] }

-- The zero value.
abbrev pub empty_progress : Progress
empty_progress = record { messages = []; events = []; not_found = []; waiting_data = false }
