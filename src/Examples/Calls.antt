-- ===== src/Examples/Calls.antt =====
-- Calls of a node's user, after Close.
use coded_hotterstuff.Prelude.{true, false, Bool, ◌≡◌, refl, some}
use coded_hotterstuff.Types.{Message, empty}
use coded_hotterstuff.Node.New.{Data}
use coded_hotterstuff.Node.Calls.{
  Channels, new_channels, Served, Serves, idle, then_happens, closed, ended, stepped, by_quit,
  err_stopped, close_call, step_call, send_call,
}
use coded_hotterstuff.Node.Calls.Stopped.{stopped_for_good}
use coded_hotterstuff.Examples.Runs.{env, fresh}

-- The node is closed, its loop ends, and a message comes too late.
abbrev before_close : Served env
before_close = record { node = fresh; channels = new_channels }

abbrev closing : Channels
closing = record new_channels { quit = true }

abbrev after_close : Served env
after_close = record { node = fresh; channels = record closing { done = true } }

closed_and_ended : Serves env before_close after_close
unfolding close_call new_channels
closed_and_ended = then_happens (then_happens idle (closed closing refl)) (ended refl refl)

late_message : Serves env after_close after_close
unfolding step_call
late_message =
    then_happens idle
      (stepped by_quit false empty err_stopped (record closing { done = true }) refl)

stopped_for_good_example :
    (after_close.node ≡ after_close.node)
    × ((ctx : Bool) (m : Message)
        → step_call by_quit ctx m after_close.channels ≡ some (err_stopped, after_close.channels))
    × ((ctx : Bool) (x : Data)
        → send_call by_quit ctx x after_close.channels ≡ some (err_stopped, after_close.channels))
stopped_for_good_example =
    stopped_for_good env fresh after_close after_close closed_and_ended refl late_message
