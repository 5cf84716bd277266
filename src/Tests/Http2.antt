-- ===== src/Tests/Http2.antt =====
-- internal/martian/h2 at concrete frames.
use forwarder.Base.{◌≤◌, ◌≡◌, ◌++◌, true, List, [], ◌∷◌, codes}
use forwarder.Base.Int.{pos, ◌+ℤ◌}
use forwarder.H2.Frame.{queued_data, stream_id, queued_rst_stream}
use forwarder.H2.Output.Laws.{total}
use forwarder.H2.Relay.Credit.{run_within_grants}
use forwarder.H2.Relay.Order.{of_stream}
use forwarder.H2.Relay.Run.{run-in_order}
use forwarder.H2.Relay.{new_relay, run, buffer_of, Event, enqueued, granted, initial_changed}

abbrev calls : List Event
calls =
    initial_changed [] 1
    ∷ enqueued (queued_data 1 true (codes "ab"))
    ∷ enqueued (queued_rst_stream 3 8)
    ∷ granted (3 ∷ 1 ∷ []) 0 10
    ∷ granted [] 1 1
    ∷ []

run-in_order_example :
    of_stream 1 (run new_relay calls).output ++ (buffer_of (run new_relay calls) 1).queue
    ≡ queued_data 1 true (codes "ab") ∷ []
unfolding stream_id
run-in_order_example = run-in_order calls 1

run_within_grants_example :
    ((run new_relay calls).connection_window_size +ℤ pos (total (run new_relay calls).output)
      ≡ pos 65545)
    × (total (run new_relay calls).output ≤ 65545)
run_within_grants_example = run_within_grants calls
