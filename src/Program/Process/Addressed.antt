-- ===== src/Program/Process/Addressed.antt =====
-- hotstuff-node/main.go: the messages for one node, and the calls of dispatchMessage that put them
-- into its channel.
use coded_hotterstuff.Prelude.{
  ℕ, zero, suc, ◌+◌, ◌<◌, ◌≡◌, ◌≢◌, refl, ap, ◌∙◌, Bool, true, false, inl, inr, Bool-cases, ◌==◌,
  ltb, if◌then◌else◌, List, [], ◌∷◌, ◌++◌, append_assoc, arith,
}
use coded_hotterstuff.Types.{Message}
use coded_hotterstuff.Progress.{MsgTo, BlockEvent, broadcast}
use coded_hotterstuff.Program.{
  Call, step_node, send_data, send_channel, send_confirmed, to_each, up_from, dispatch_message,
  dispatch_all, number_of_nodes,
}
use coded_hotterstuff.Program.Process.{confirm_all}

-- One copy for each time that the node is among the recipients.
unfoldable pub copies : ℕ → Message → List ℕ → List Message
copies rx m [] = []
copies rx m (id ∷ ids) = let rest = copies rx m ids in if id == rx then m ∷ rest else rest

-- The messages for node `rx`, in order: those to all nodes, and those that name it.
unfoldable pub addressed : ℕ → List MsgTo → List Message
unfolding copies broadcast
addressed rx [] = []
addressed rx (m ∷ ms) =
    (if broadcast m
      then (if ltb rx number_of_nodes then m.message ∷ [] else [])
      else copies rx m.message m.recipients)
    ++ addressed rx ms

-- What the calls still put into the channel.
unfoldable pub calls_to : ℕ → List Call → List Message
calls_to rx [] = []
calls_to rx (step_node m ∷ cs) = calls_to rx cs
calls_to rx (send_data ∷ cs) = calls_to rx cs
calls_to rx (send_confirmed ∷ cs) = calls_to rx cs
calls_to rx (send_channel id m ∷ cs) =
    let rest = calls_to rx cs in if id == rx then m ∷ rest else rest

pub calls_to-append :
    (rx : ℕ) (xs ys : List Call) → calls_to rx (xs ++ ys) ≡ calls_to rx xs ++ calls_to rx ys
unfolding calls_to
calls_to-append rx [] ys = refl
calls_to-append rx (step_node m ∷ cs) ys = calls_to-append rx cs ys
calls_to-append rx (send_data ∷ cs) ys = calls_to-append rx cs ys
calls_to-append rx (send_confirmed ∷ cs) ys = calls_to-append rx cs ys
calls_to-append rx (send_channel id m ∷ cs) ys = elim (Bool-cases (id == rx)) [
  | inl hit ↦ rw hit (ap (λ l. m ∷ l) (calls_to-append rx cs ys))
  | inr miss ↦ rw miss (calls_to-append rx cs ys)
]

-- Nothing goes into the node's own channel, and the others' get their copies.
pub calls_to-to_each :
    (rx idx : ℕ) (m : Message) (ids : List ℕ)
    → rx ≢ idx
    → calls_to rx (to_each idx m ids) ≡ copies rx m ids
unfolding calls_to to_each copies
calls_to-to_each rx idx m [] ne = refl
calls_to-to_each rx idx m (id ∷ ids) ne = elim (Bool-cases (id == idx)) [
  | inl own ↦
      let miss : (id == rx) ≡ false = ground arith in
      rw own (rw miss (calls_to-to_each rx idx m ids ne))
  | inr other ↦ rw other (elim (Bool-cases (id == rx)) [
    | inl hit ↦ rw hit (ap (λ l. m ∷ l) (calls_to-to_each rx idx m ids ne))
    | inr miss ↦ rw miss (calls_to-to_each rx idx m ids ne)
  ])
]

copies-up_from-below : (rx : ℕ) (m : Message) (i n : ℕ) → rx < i → copies rx m (up_from i n) ≡ []
unfolding copies up_from
copies-up_from-below rx m i zero h = refl
copies-up_from-below rx m i (suc n) h =
    let miss : (i == rx) ≡ false = ground arith in
    rw miss (copies-up_from-below rx m (suc i) n (omega arith))

copies-up_from :
    (rx : ℕ) (m : Message) (i n : ℕ)
    → i < suc rx
    → copies rx m (up_from i n) ≡ (if ltb rx (i + n) then m ∷ [] else [])
unfolding copies up_from
copies-up_from rx m i zero h = let out : ltb rx (i + 0) ≡ false = ground arith in rw out refl
copies-up_from rx m i (suc n) h = elim (Bool-cases (i == rx)) [
  | inl hit ↦
      let inside : ltb rx (i + suc n) ≡ true = ground arith in
      rw hit (rw inside (ap (λ l. m ∷ l) (copies-up_from-below rx m (suc i) n (ground arith))))
  | inr miss ↦ rw miss (
      copies-up_from rx m (suc i) n (ground arith)
      ∙ ap (λ k. if ltb rx k then m ∷ [] else []) (omega arith))
]

pub calls_to-dispatch_all :
    (rx idx : ℕ) (ms : List MsgTo) → rx ≢ idx → calls_to rx (dispatch_all idx ms) ≡ addressed rx ms
unfolding dispatch_all addressed dispatch_message
calls_to-dispatch_all rx idx [] ne = unfold calls_to in refl
calls_to-dispatch_all rx idx (m ∷ ms) ne =
    calls_to-append rx (dispatch_message idx m) (dispatch_all idx ms)
    ∙ ap (λ l. calls_to rx (dispatch_message idx m) ++ l) (calls_to-dispatch_all rx idx ms ne)
    ∙ ap (λ l. l ++ addressed rx ms) (one (broadcast m))
  where
    one :
        (b : Bool)
        → calls_to rx (
            if b
            then to_each idx m.message (up_from 0 number_of_nodes)
            else to_each idx m.message m.recipients)
          ≡ (if b
              then (if ltb rx number_of_nodes then m.message ∷ [] else [])
              else copies rx m.message m.recipients)
    one true =
        calls_to-to_each rx idx m.message (up_from 0 number_of_nodes) ne
        ∙ copies-up_from rx m.message 0 number_of_nodes (omega arith)
    one false = calls_to-to_each rx idx m.message m.recipients ne

pub addressed-append :
    (rx : ℕ) (xs ys : List MsgTo) → addressed rx (xs ++ ys) ≡ addressed rx xs ++ addressed rx ys
unfolding addressed
addressed-append rx [] ys = refl
addressed-append rx (m ∷ ms) ys = rw (addressed-append rx ms ys) (simp append_assoc)

pub calls_to-confirm_all : (rx : ℕ) (bs : List BlockEvent) → calls_to rx (confirm_all bs) ≡ []
unfolding calls_to confirm_all
calls_to-confirm_all rx [] = refl
calls_to-confirm_all rx (b ∷ bs) = elim (Bool-cases b.finalized) [
  | inl final ↦ rw final (calls_to-confirm_all rx bs)
  | inr open_yet ↦ rw open_yet (calls_to-confirm_all rx bs)
]
