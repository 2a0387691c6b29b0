-- ===== src/Api/Batches.antt =====
-- agent/internal/api/ws.go: the goroutine that `subscribeLogs` starts, from the channel of log lines
-- to the messages that it sends. What its `select` takes, and whether a message can be sent, are
-- arguments.
pub mod Complete
use pc_monitor.Base.{ℕ, Bool, true, false, List, [], ◌∷◌, ◌++◌, length, leb, if◌then◌else◌}
use pc_monitor.Provider.{LogLine}

abbrev pub log_batch_max : ℕ
log_batch_max = 500

-- A line, the end of the channel, a tick, or the end of the stream's context.
pub data Event : Type 0 where
  got_line : LogLine → Event
  closed tick cancelled : Event

-- One round: the event, whether `sendEnvelope` succeeds then, and whether the stream's context
-- still lives.
pub record Round : Type 0 where
  pub event : Event
  pub sends : Bool
  pub alive : Bool

-- `sent` are the batches that went out; `ended` says that the client is told of the end.
pub record Stream : Type 0 where
  pub batch : List LogLine
  pub sent : List (List LogLine)
  pub ended : Bool
  pub going : Bool

unfoldable pub new_stream : Stream
new_stream = record { batch = []; sent = []; ended = false; going = true }

abbrev sent_with : Bool → List (List LogLine) → List LogLine → List (List LogLine)
sent_with true sent batch = sent ++ (batch ∷ [])
sent_with false sent batch = sent

abbrev pub flushed : Bool → List LogLine → Stream → Bool × Stream
flushed sends [] s = (true, s)
flushed sends (l ∷ ls) s = (sends, record s { batch = []; sent = sent_with sends s.sent (l ∷ ls) })

unfoldable pub flush : Bool → Stream → Bool × Stream
flush sends s = flushed sends s.batch s

-- The loop goes on where the flush succeeded.
abbrev pub go_on : Bool × Stream → Stream
go_on (ok, s) = record s { going = ok }

unfoldable pub add_line : Bool → LogLine → Stream → Stream
add_line sends l s =
    let s' = record s { batch = s.batch ++ (l ∷ []) } in
    if leb log_batch_max (length s'.batch) then go_on (flush sends s') else s'

abbrev pub of_event : Event → Bool → Bool → Stream → Stream
of_event (got_line l) sends alive s = add_line sends l s
of_event tick sends alive s = go_on (flush sends s)
of_event closed sends alive s = record (flush sends s).1 { ended = alive; going = false }
of_event cancelled sends alive s = record s { going = false }

unfoldable pub on_round : Round → Stream → Stream
on_round r s = of_event r.event r.sends r.alive s

unfoldable pub run : List Round → Stream → Stream
run [] s = s
run (r ∷ rs) s = let next = run rs (on_round r s) in if s.going then next else s
