-- ===== src/Program.antt =====
-- hotstuff-node/main.go: the program around a node. Its channels are queues with a capacity, and its
-- strings are lists of bytes.
pub mod Text
pub mod Genesis
pub mod Process
use coded_hotterstuff.Prelude.{
  ℕ, zero, suc, ◌+◌, Bool, ◌==◌, if◌then◌else◌, not, List, [], ◌∷◌, ◌++◌, length, get_elem?,
  replicate, Option, none, some,
}
use coded_hotterstuff.Prelude.Bytes.{Bytes}
use coded_hotterstuff.Exec.{Outcome, ok, crash, panic}
use coded_hotterstuff.Types.{Message}
use coded_hotterstuff.Progress.{MsgTo, broadcast}
use coded_hotterstuff.Program.Text.{itoa, split}

-- DEFAULT_ADDRESS_NUMBER, NUMBER_OF_NODES, SEED
abbrev pub default_address_number : ℕ
default_address_number = 9000

abbrev pub number_of_nodes : ℕ
number_of_nodes = 4

abbrev pub seed : ℕ
seed = 0

-- The capacities of the channels of messages, and of the one that counts blocks.
abbrev pub messages_cap : ℕ
messages_cap = 1000

abbrev pub confirmed_cap : ℕ
confirmed_cap = 100

-- createInMsgsChannel, createArrayOfChannels
unfoldable pub create_in_msgs_channel : List Message
create_in_msgs_channel = []

unfoldable pub create_array_of_channels : List (List Message)
create_array_of_channels = replicate number_of_nodes []

-- The loop of getAddressList and getIPAddressList, from index `i` on.
addresses_from : Bytes → ℕ → ℕ → List Bytes
addresses_from host i zero = []
addresses_from host i (suc n) =
    (host ++ b':' ∷ itoa (default_address_number + i)) ∷ addresses_from host (suc i) n

unfoldable pub get_address_list : List Bytes
unfolding addresses_from
get_address_list = addresses_from [] 0 number_of_nodes

-- "127.0.0.1"
abbrev pub localhost : Bytes
localhost = b'1' ∷ b'2' ∷ b'7' ∷ b'.' ∷ b'0' ∷ b'.' ∷ b'0' ∷ b'.' ∷ b'1' ∷ []

unfoldable pub get_ip_address_list : List Bytes
unfolding addresses_from
get_ip_address_list = addresses_from localhost 0 number_of_nodes

-- A blocking call of entryPoint: of Node.Step, of Node.Send, or a send on a channel.
pub data Call : Type 0 where
  step_node : Message → Call
  send_data : Call
  send_channel : ℕ → Message → Call
  send_confirmed : Call

-- `int(rx)` is the same 64 bits; an index of the array is compared with it.
abbrev pub deliver_to : ℕ → Message → ℕ → Call
deliver_to idx m rx = if rx == idx then step_node m else send_channel rx m

unfoldable pub to_each : ℕ → Message → List ℕ → List Call
to_each idx m [] = []
to_each idx m (rx ∷ rxs) = deliver_to idx m rx ∷ to_each idx m rxs

-- rx = 0, 1, ...
unfoldable pub up_from : ℕ → ℕ → List ℕ
up_from i zero = []
up_from i (suc n) = i ∷ up_from (suc i) n

-- dispatchMessage: the calls that it makes, in order.
unfoldable pub dispatch_message : ℕ → MsgTo → List Call
unfolding broadcast
dispatch_message idx m =
    if broadcast m
    then to_each idx m.message (up_from 0 number_of_nodes)
    else to_each idx m.message m.recipients

-- The loop over the messages of one Progress.
unfoldable pub dispatch_all : ℕ → List MsgTo → List Call
dispatch_all idx [] = []
dispatch_all idx (m ∷ ms) = dispatch_message idx m ++ dispatch_all idx ms

-- main: the addresses that entryPoint is called with; the list of the flag must be of all nodes.
with_ports : ℕ → List Bytes → List Bytes
with_ports i [] = []
with_ports i (host ∷ hosts) =
    (host ++ b':' ∷ itoa (default_address_number + i)) ∷ with_ports (suc i) hosts

unfoldable pub main_addresses : Bytes → Outcome (List Bytes)
unfolding with_ports
main_addresses ip_addresses =
    let hosts = split b',' ip_addresses in
    if not (length hosts == number_of_nodes) then crash panic else ok (with_ports 0 hosts)

-- The connections that entryPoint opens: one listener on its own address, and one connection to each
-- node with a smaller index. An index out of the array's range panics.
own_address : Option Bytes → List Bytes → Outcome (Bytes × List Bytes)
own_address none dialled = crash panic
own_address (some address) dialled = ok (address, dialled)

pub first : ℕ → List Bytes → List Bytes
first zero xs = []
first (suc n) [] = []
first (suc n) (x ∷ xs) = x ∷ first n xs

unfoldable pub connections : ℕ → List Bytes → Outcome (Bytes × List Bytes)
unfolding own_address first
connections index addresses = own_address (get_elem? addresses index) (first index addresses)
