-- ===== src/Pterodactyl/Console.antt =====
-- agent/internal/providers/pterodactyl/pterodactyl.go, Logs: the console of a game server, from the
-- websocket of Wings. What the socket brings, whether a message can be sent, new credentials, the
-- clock, and how many lines the reader takes before it goes away are arguments of a round.
use pc_monitor.Base.{
  ℕ, Bool, true, false, List, [], ◌∷◌, ◌++◌, map, reverse, Option, none, some, Bytes, codes,
  bytes_eq, split, take, length, leb, ◌==◌, if◌then◌else◌, ◌||◌,
}
use pc_monitor.Base.Int.{ℤ}
use pc_monitor.Base.Lines.{newline}
use pc_monitor.Provider.{LogLine}
use pc_monitor.Provider.CleanLine.{clean_line}
use pc_monitor.Pterodactyl.{Result, failed, result}

pub record WsMessage : Type 0 where
  pub event : Bytes
  pub args : List Bytes

-- What `conn.Read` gives: the text of an error with whether the context ended, or a message that
-- JSON reads or not.
pub data Read : Type 0 where
  read_failed : Bytes → Bool → Read
  message : Option WsMessage → Read

-- `fresh` is the token of new credentials, and `send_error` the error of the message that is sent
-- in this round.
pub record Round : Type 0 where
  pub read : Read
  pub fresh : Result Bytes
  pub send_error : Option Bytes
  pub now : ℤ
  pub room : ℕ

-- What a round does, and whether the loop goes on.
pub record Outcome : Type 0 where
  pub lines : List LogLine
  pub sends : List WsMessage
  pub going : Bool

abbrev drop_newlines : Bytes → Bytes
drop_newlines [] = []
drop_newlines (c ∷ s) = if c == newline then drop_newlines s else c ∷ s

-- `strings.Split(strings.TrimRight(text, "\n"), "\n")`
unfoldable pub console_lines : Bytes → List Bytes
console_lines text = split newline (reverse (drop_newlines (reverse text)))

module _ (strip_ansi : Bytes → Bytes) where
  -- The lines that go out, and whether it was all of them.
  unfoldable pub emit : Round → Bytes → Bool → List LogLine × Bool
  emit r text err =
      let lines = console_lines text in
      (
        take r.room (
            map {A = Bytes} (λ l. record { t = r.now; err = err; text = clean_line strip_ansi l })
              lines),
        leb (length lines) r.room,
      )

  abbrev emitted : List LogLine × Bool → Outcome
  emitted (ls, ok) = record { lines = ls; sends = []; going = ok }

  abbrev last_words : Round → Bytes → List WsMessage → Outcome
  last_words r text sends = record { lines = (emit r text true).0; sends = sends; going = false }

  -- A message is sent; its error ends the console.
  abbrev pub sent : Round → WsMessage → Option Bytes → Outcome
  sent r m none = record { lines = []; sends = m ∷ []; going = true }
  sent r m (some e) = last_words r (codes "console error: " ++ e) (m ∷ [])

  -- A token that runs out is replaced.
  abbrev pub renewed : Round → Result Bytes → Outcome
  renewed r (failed e) = last_words r (codes "console error: " ++ e) []
  renewed r (result token) =
      sent r (record { event = codes "auth"; args = token ∷ [] }) r.send_error

  unfoldable pub on_event : Round → Bytes → Bytes → Outcome
  on_event r event arg =
      if bytes_eq event (codes "auth success")
      then sent r (record { event = codes "send logs"; args = [] }) r.send_error
      else if bytes_eq event (codes "console output") || bytes_eq event (codes "install output")
      then emitted (emit r arg false)
      else if bytes_eq event (codes "daemon error")
      then emitted (emit r arg true)
      else if bytes_eq event (codes "daemon message")
      then emitted (emit r (codes "[wings] " ++ arg) false)
      else if bytes_eq event (codes "status")
      then emitted (emit r (codes "[wings] server marked as " ++ arg) false)
      else if bytes_eq event (codes "token expiring") || bytes_eq event (codes "token expired")
      then renewed r r.fresh
      else if bytes_eq event (codes "jwt error")
      then last_words r (codes "wings rejected the console token: " ++ arg) []
      else record { lines = []; sends = []; going = true }

  abbrev first_arg : List Bytes → Bytes
  first_arg [] = []
  first_arg (a ∷ rest) = a

  abbrev pub on_read : Round → Read → Outcome
  on_read r (read_failed e true) = record { lines = []; sends = []; going = false }
  on_read r (read_failed e false) = last_words r (codes "console connection closed: " ++ e) []
  on_read r (message none) = record { lines = []; sends = []; going = true }
  on_read r (message (some m)) = on_event r m.event (first_arg m.args)

  abbrev after : Outcome → Outcome → Outcome
  after o rest =
      if o.going
      then record {
        lines = o.lines ++ rest.lines;
        sends = o.sends ++ rest.sends;
        going = rest.going;
      }
      else o

  -- The loop, over the rounds that come.
  unfoldable pub run_console : List Round → Outcome
  run_console [] = record { lines = []; sends = []; going = true }
  run_console (r ∷ rs) = after (on_read r r.read) (run_console rs)
