-- ===== src/Program/Process/Received.antt =====
-- hotstuff-node/main.go and hotstuff-node/tcpNode.go: from what a node hands out to what the process
-- at the other end of a connection receives.
use coded_hotterstuff.Node.Sends.{pending}
use coded_hotterstuff.Program.Process.Addressed.{calls_to, addressed}
use coded_hotterstuff.Program.Process.Queues.{queue_at}
use coded_hotterstuff.Connection.Messages.{
  listen_messages-send_messages, listen_messages, send_messages, IsSendable,
}
use coded_hotterstuff.Program.Process.{enter, Runs, Process}
use coded_hotterstuff.Node.{Node}
use coded_hotterstuff.Prelude.{◌++◌, List, ◌≤◌, length, All, [], ◌≡◌, ◌≢◌, ℕ}
use coded_hotterstuff.Env.{Env}
use coded_hotterstuff.Exec.{ok}
use coded_hotterstuff.Types
use coded_hotterstuff.Types.{Message}
use coded_hotterstuff.Program.Process.Order.{messages_in_order}

module _ (env : Env) (payload : Types.Data) (idx rx : ℕ) (ne : rx ≢ idx) where
  -- What another process receives on its connection, whatever the goroutines of the process do and in
  -- whichever order: messages that the node has handed out to all nodes or to the other one, from the
  -- first on, unchanged, in their order, none left out and none twice. It is given that each message
  -- that the connection has taken can be encoded in fewer than 2^32 bytes.
  pub received_in_order :
      (n : Node env) (q : Process env) (fuel : ℕ)
      → n.delivered ≡ []
      → Runs env payload idx (enter env n) q
      → All IsSendable (queue_at rx q.taken)
      → length (send_messages (queue_at rx q.taken)) ≤ fuel
      → (received later : List Message) × (listen_messages fuel
            (send_messages (queue_at rx q.taken))
          ≡ ok received)
        × (received ++ later ≡ addressed rx q.node.delivered)
  received_in_order n q fuel silent runs sendable enough = (
    queue_at rx q.taken,
    queue_at rx q.channels ++ (calls_to rx q.calls ++ addressed rx (pending q.deliver)),
    listen_messages-send_messages (queue_at rx q.taken) fuel sendable enough,
    messages_in_order env payload idx rx ne n q silent runs,
  )
