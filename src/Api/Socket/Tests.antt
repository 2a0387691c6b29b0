-- ===== src/Api/Socket/Tests.antt =====
-- A client with messages behind the greeting, one of a stream that was stopped, whose session ends.
use pc_monitor.Base.{[], ◌∷◌, ◌++◌, List, Bytes, true, false, codes, length, ◌≤◌, ◌⊎◌, ◌≡◌}
use pc_monitor.Api.Socket.{
  send_size, Event, try_send, send_envelope, write_next, watch, accepted_client, run_client,
}
use pc_monitor.Api.Socket.Order.{messages_of, run_client-prefix}

abbrev events : List Event
events =
    try_send (codes "stats")
    ∷ send_envelope true (codes "stopped")
    ∷ write_next false
    ∷ send_envelope false (codes "line")
    ∷ []

abbrev later : List Event
later = write_next false ∷ []

run_client-prefix_example :
    ((rest : List Bytes) × ((run_client (accepted_client (codes "hello")) events).written ++ rest
        ≡ codes "hello" ∷ messages_of events)
      × (((run_client (accepted_client (codes "hello")) events).cancelled ≡ true)
          ⊎ ((rest ≡ (run_client (accepted_client (codes "hello")) events).queue)
              × (length rest ≤ send_size))))
    × ((run_client
          (run_client (accepted_client (codes "hello")) events)
          (watch true ∷ later)).written
        ≡ (run_client (accepted_client (codes "hello")) events).written)
run_client-prefix_example = run_client-prefix (codes "hello") events later
