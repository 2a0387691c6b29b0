-- ===== src/Pm2/Control/Remote.antt =====
-- agent/internal/providers/pm2/control.go: dashd's side of the control socket, and the two sides
-- together. JSON of the reply, and what the socket does, are arguments.
use pc_monitor.Base.{
  Bool, true, false, List, [], ◌++◌, Option, none, some, Bytes, codes, bytes_eq, ◌≡◌, ◌≢◌, ◌↔◌,
  refl, sym, ap, ◌∙◌, subst, arith, if◌then◌else◌,
}
use pc_monitor.Base.Int.{ℤ}
use pc_monitor.Provider.{CallError}
use pc_monitor.Provider.Registry.{is_blank}
use pc_monitor.Pm2.Clean.{Unicode, clean}
use pc_monitor.Pm2.Processes.Snapshot.{
  File, SnapshotError, ControlRequest, Sent, refused, stale, send, snapshot, do_process,
}
use pc_monitor.Pm2.Control.Requested.{Asks, do_process-Asks, do_process-action}
use pc_monitor.Pm2.Control.Live.{CarriedOut, act_carried_iff}
use pc_monitor.Pm2.Control.{
  Answer, RpcCall, Acted, denied, called, Helper, act, Reply, hung_up, streaming, accepted, failed,
  reply_to, handle_read,
}

-- Why the socket can't be reached.
pub data DialError : Type 0 where
  connection_refused no_socket no_access : DialError
  other_dial_error : Bytes → DialError

unfoldable pub dial_text : DialError → Bytes
dial_text connection_refused =
    codes "the dashd-pm2 helper is restarting. Try again in a few seconds"
dial_text no_socket =
    codes "the dashd-pm2 helper isn't taking requests. On the server, run deploy/update.sh"
    ++ codes " in the dashd checkout (DEPLOY.md step 8b)"
dial_text no_access =
    codes "dashd isn't allowed to use the helper's control socket. Check `-control-user dashd`"
    ++ codes " in dashd-pm2.service and `getfacl /run/pm2-status/control.sock`"
dial_text (other_dial_error e) = e

-- What one request over the socket brings; an answer that does not come says whether it timed out.
pub data Exchange : Type 0 where
  dial_failed : DialError → Exchange
  write_failed : Bytes → Exchange
  no_answer : Bool → Bytes → Exchange
  line : Bytes → Exchange

abbrev pub reply_error : Unicode → Option (Bool × Bytes) → Option Bytes
reply_error u none = some (codes "the helper sent an unreadable answer")
reply_error u (some (true, e)) = none
reply_error u (some (false, e)) =
    some (clean u 300 (if is_blank e then codes "the helper refused" else e))

-- `SendControl`, where `read` is JSON of the reply: `ok` and `error`.
unfoldable pub send_control : Unicode → (Bytes → Option (Bool × Bytes)) → Exchange → Option Bytes
send_control u read (dial_failed e) = some (dial_text e)
send_control u read (write_failed e) = some e
send_control u read (no_answer true e) =
    some (codes "the helper didn't answer in time; the bot may still be restarting")
send_control u read (no_answer false e) = some (codes "no answer from the helper: " ++ e)
send_control u read (line raw) = reply_error u (read raw)

pub data DoError : Type 0 where
  call_refused : CallError → DoError
  no_fresh_snapshot : SnapshotError → DoError
  helper_error : Bytes → DoError

abbrev from_helper : Option Bytes → Option DoError
from_helper none = none
from_helper (some e) = some (helper_error e)

-- The end of `Do`, given what a request brings.
unfoldable pub send_request :
    Unicode → (Bytes → Option (Bool × Bytes)) → (ControlRequest → Exchange) → Sent → Option DoError
send_request u read ask (refused e) = some (call_refused e)
send_request u read ask (stale e) = some (no_fresh_snapshot e)
send_request u read ask (send req) = from_helper (send_control u read (ask req))

-- The way of one request: it works, the dial or the write fails so that the helper has no request,
-- or the answer is lost behind the helper, in time or not. An answer of which a part comes is not
-- modelled.
pub data Link : Type 0 where
  works : Link
  no_dial : DialError → Link
  no_write : Bytes → Link
  lost : Bool → Bytes → Link

-- What dashd gets of what the helper's end of `handleControl` writes.
abbrev pub answered : (Bool → Bytes → Bytes) → Link → Reply → Exchange
answered write (no_dial e) r = dial_failed e
answered write (no_write e) r = write_failed e
answered write (lost timeout e) r = no_answer timeout e
answered write works hung_up = no_answer false []
answered write works (streaming req) = no_answer false []
answered write works accepted = line (write true [])
answered write works (failed e) = line (write false e)

-- `Do` of the provider with the helper at the other end.
abbrev pub do_remote :
    Helper
    → (Bytes → Option (Bool × Bytes))
    → (Bool → Bytes → Bytes)
    → Link
    → Bool
    → Answer
    → Sent
    → Option DoError
do_remote h read write link busy a s =
    send_request h.unicode read (λ req. answered write link (handle_read h busy a (some req))) s

-- JSON of a reply reads back its `ok`, and a text that need not be the one that was written.
abbrev pub KeepsOk : (Bytes → Option (Bool × Bytes)) → (Bool → Bytes → Bytes) → Type 0
KeepsOk read write = (ok : Bool) (e : Bytes) → (e' : Bytes) × (read (write ok e) ≡ some (ok, e'))

abbrev Succeeds : Acted → Type 0
Succeeds x = (call : RpcCall) × (x ≡ called call none)

module _ (u : Unicode) (read : Bytes → Option (Bool × Bytes)) (write : Bool → Bytes → Bytes)
    (law : KeepsOk read write) where
  failed-error : (e : Bytes) → from_helper (reply_error u (read (write false e))) ≢ none
  failed-error e h =
      let (e', same) = law false e in
      absurd (ground (arith, ap (λ r. from_helper (reply_error u r)) (sym same) ∙ h))

  acted_iff :
      (link : Link) (x : Acted)
      → (from_helper (send_control u read (answered write link (reply_to x))) ≡ none)
        ↔ ((link ≡ works) × Succeeds x)
  unfolding send_control
  acted_iff (no_dial e) x = (λ h. absurd (ground (arith, h)), λ (w, y). absurd (ground (arith, w)))
  acted_iff (no_write e) x = (λ h. absurd (ground (arith, h)), λ (w, y). absurd (ground (arith, w)))
  acted_iff (lost true e) x =
      (λ h. absurd (ground (arith, h)), λ (w, y). absurd (ground (arith, w)))
  acted_iff (lost false e) x =
      (λ h. absurd (ground (arith, h)), λ (w, y). absurd (ground (arith, w)))
  acted_iff works (denied e) =
      (λ h. absurd (failed-error e h), λ (w, (call, y)). absurd (ground (arith, y)))
  acted_iff works (called c none) = (
    λ h. (refl, (c, refl)),
    λ y. let (e', same) = law true [] in ap (λ r. from_helper (reply_error u r)) same,
  )
  acted_iff works (called c (some e)) =
      (λ h. absurd (failed-error e h), λ (w, (call, y)). absurd (ground (arith, y)))

handle_read-act :
    (h : Helper) (busy : Bool) (a : Answer) (req : ControlRequest)
    → bytes_eq req.action (codes "logs") ≡ false
    → handle_read h busy a (some req) ≡ reply_to (act h busy a req)
handle_read-act h busy a req e = rw e refl

-- pm2 carries the request out by some call.
abbrev pub IsDone : Helper → Bool → Answer → ControlRequest → Type 0
IsDone h busy a req = (call : RpcCall) × CarriedOut h busy a req call

act-Succeeds_iff :
    (h : Helper) (busy : Bool) (a : Answer) (req : ControlRequest)
    → Succeeds (act h busy a req) ↔ IsDone h busy a req
act-Succeeds_iff h busy a req = (
  λ (call, e). (call, (act_carried_iff h busy a req call).0 e),
  λ (call, c). (call, (act_carried_iff h busy a req call).1 c),
)

send_request_iff :
    (h : Helper) (read : Bytes → Option (Bool × Bytes)) (write : Bool → Bytes → Bytes) (link : Link)
    (busy : Bool) (a : Answer) (s : Sent)
    → KeepsOk read write
    → ((req : ControlRequest) → s ≡ send req → bytes_eq req.action (codes "logs") ≡ false)
    → (do_remote h read write link busy a s ≡ none)
      ↔ ((link ≡ works) × ((req : ControlRequest) × (s ≡ send req) × IsDone h busy a req))
unfolding send_request
send_request_iff h read write link busy a (refused e) law ok =
    (λ x. absurd (ground (arith, x)), λ (w, (req, x, y)). absurd (ground (arith, x)))
send_request_iff h read write link busy a (stale e) law ok =
    (λ x. absurd (ground (arith, x)), λ (w, (req, x, y)). absurd (ground (arith, x)))
send_request_iff h read write link busy a (send req) law ok =
    let same = handle_read-act h busy a req (ok req refl) in
    let from : Reply → Option DoError =
      λ r. from_helper (send_control h.unicode read (answered write link r)) in
    let acts = acted_iff h.unicode read write law link (act h busy a req) in
    let done = act-Succeeds_iff h busy a req in
    (
      λ x. let (w, y) = acts.0 (sym (ap from same) ∙ x) in (w, (req, refl, done.0 y)),
      λ (w, (req', x, y)).
          ap from same ∙ acts.1 (w, done.1 (subst (λ q. IsDone h busy a q) (sym (send_eq x)) y)),
    )
  where
    send_eq : {p q : ControlRequest} → send p ≡ send q → p ≡ q
    send_eq e = cc

-- With the helper at the other end of the socket, and JSON that reads back whether a reply is `ok`:
-- `Do` succeeds exactly where the request gets through and the answer comes back, the action becomes
-- a request, which is for that action on the number and the name of a process that a fresh snapshot
-- has behind the unit's id, and pm2 carries that request out, which takes that no other action runs,
-- that the action starts, stops or restarts, that pm2's list has a process with the id and the name
-- of the request, and that pm2 gives no error for that call on that id. So a lost answer never
-- counts as a success, also where the helper acted.
pub do_remote_iff :
    (h : Helper) (read : Bytes → Option (Bool × Bytes)) (write : Bool → Bytes → Bytes) (link : Link)
    (busy : Bool) (a : Answer) (exclude : List Bytes) (now : ℤ) (file : File) (id action : Bytes)
    → KeepsOk read write
    → (do_remote h read write link busy a (do_process h.unicode exclude now file id action) ≡ none)
      ↔ ((link ≡ works)
          × ((req : ControlRequest) × (do_process h.unicode exclude now file id action ≡ send req)
              × Asks h.unicode exclude now (snapshot h.unicode now file) id action req
              × IsDone h busy a req))
do_remote_iff h read write link busy a exclude now file id action law =
    let (to, from) =
      send_request_iff h read write link busy a (do_process h.unicode exclude now file id action)
        law (do_process-action h.unicode exclude now file id action) in
    (
      λ x.
          let (w, (req, e, done)) = to x in
          (w, (req, e, do_process-Asks h.unicode exclude now file id action req e, done)),
      λ (w, (req, e, asks, done)). from (w, (req, e, done)),
    )
