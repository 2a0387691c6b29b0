-- ===== src/Pm2/Control/Live.antt =====
-- The helper acts only on processes that are still there.
use pc_monitor.Base.{
  Bool, true, false, List, map, Option, none, some, Bytes, any, Bool-cases, ◌≡◌, ◌↔◌, refl, sym, ap,
  ap₂, ◌∙◌, subst, arith, inl, inr,
}
use pc_monitor.Pm2.Control.Asked.{HasSame, Means, rpc_call-Means, Means-rpc_call, any-is_same_iff}
use pc_monitor.Pm2.Processes.{Proc}
use pc_monitor.Pm2.Processes.Snapshot.{ControlRequest}
use pc_monitor.Pm2.Control.{
  JlistProc, proc_of, parse_procs, Answer, list_error, answer, RpcCall, RpcError, not_running,
  no_permission, timed_out, pm2_refused, other_failure, Acted, denied, called, rpc_call, is_same,
  call_error, Helper, act_on, act_listed, act_known, act,
}

-- pm2's list can be read and has a process with both the id and the name of the request.
abbrev pub IsLive : Helper → ControlRequest → Answer → Type 0
IsLive h req (list_error e) = true ≡ false
IsLive h req (answer raw) = HasSame h.unicode req raw

-- pm2 is asked to do something.
abbrev pub IsCall : RpcCall → Acted → Type 0
IsCall call (denied e) = true ≡ false
IsCall call (called made result) = made ≡ call

act_on_iff :
    (h : Helper) (req : ControlRequest) (made call : RpcCall) (raw : Option (List JlistProc))
    → IsCall call (act_on h req made (parse_procs h.unicode raw))
      ↔ ((made ≡ call) × HasSame h.unicode req raw)
unfolding parse_procs
act_on_iff h req made call none = ground arith
act_on_iff h req made call (some rs) =
    let (to, from) = any-is_same_iff h.unicode req rs in
    elim (Bool-cases (any (is_same req) (map (proc_of h.unicode) rs))) [
      | inl e ↦ rw e (λ c. (c, to e), λ (c, has). c)
      | inr e ↦
          rw e (λ c. absurd (ground (arith, c)), λ (c, has). absurd (ground (arith, e, from has)))
    ]

act_listed_iff :
    (h : Helper) (req : ControlRequest) (made call : RpcCall) (a : Answer)
    → IsCall call (act_listed h req made a) ↔ ((made ≡ call) × IsLive h req a)
act_listed_iff h req made call (list_error e) = ground arith
act_listed_iff h req made call (answer raw) = act_on_iff h req made call raw

act_known_iff :
    (h : Helper) (busy : Bool) (a : Answer) (req : ControlRequest) (known : Option RpcCall)
    (call : RpcCall)
    → IsCall call (act_known h busy a req known)
      ↔ ((busy ≡ false) × (known ≡ some call) × IsLive h req a)
act_known_iff h busy a req none call = ground arith
act_known_iff h true a req (some made) call = ground arith
act_known_iff h false a req (some made) call = (
  (λ c. let (same, live) = (act_listed_iff h req made call a).0 c in (refl, ap some same, live)),
  (λ (free, same, live). (act_listed_iff h req made call a).1 (ground arith, live)),
)

-- The helper asks pm2 to do something exactly where no other action runs, the action is to start,
-- stop or restart, and pm2's list of that moment has a process with both the id and the name of the
-- request; and it asks for that action on that id.
pub act_iff :
    (h : Helper) (busy : Bool) (a : Answer) (req : ControlRequest) (call : RpcCall)
    → IsCall call (act h busy a req)
      ↔ ((busy ≡ false) × Means req.action req.id call × IsLive h req a)
unfolding act
act_iff h busy a req call =
    let (to, from) = act_known_iff h busy a req (rpc_call req.action req.id) call in
    (
      λ c.
          let (free, same, live) = to c in (free, rpc_call-Means req.action req.id call same, live),
      λ (free, means, live). from (free, Means-rpc_call req.action req.id call means, live),
    )

-- A call has the error that pm2 gave, and none if it gave none.
abbrev Reports : Helper → ControlRequest → Acted → Type 0
Reports h req (denied e) = Unit {0}
Reports h req (called call r) = (r ≡ none) ↔ (h.rpc call ≡ none)

call_error_iff :
    (h : Helper) (action : Bytes) (o : Option RpcError)
    → (call_error h.unicode h.user action o ≡ none) ↔ (o ≡ none)
call_error_iff h action none = ground arith
call_error_iff h action (some not_running) = ground arith
call_error_iff h action (some no_permission) = ground arith
call_error_iff h action (some timed_out) = ground arith
call_error_iff h action (some (pm2_refused s)) = ground arith
call_error_iff h action (some (other_failure s)) = ground arith

act_on-Reports :
    (h : Helper) (req : ControlRequest) (call : RpcCall) (o : Option (List Proc))
    → Reports h req (act_on h req call o)
act_on-Reports h req call none = tt
act_on-Reports h req call (some ps) = elim (Bool-cases (any (is_same req) ps)) [
  | inl e ↦ rw e (call_error_iff h req.action (h.rpc call))
  | inr e ↦ rw e tt
]

act_known-Reports :
    (h : Helper) (busy : Bool) (a : Answer) (req : ControlRequest) (known : Option RpcCall)
    → Reports h req (act_known h busy a req known)
act_known-Reports h busy a req none = tt
act_known-Reports h true a req (some call) = tt
act_known-Reports h false (list_error e) req (some call) = tt
act_known-Reports h false (answer raw) req (some call) =
    act_on-Reports h req call (parse_procs h.unicode raw)

-- pm2 carries the request out: nothing else runs, the process is there, and pm2 gives no error.
abbrev pub CarriedOut : Helper → Bool → Answer → ControlRequest → RpcCall → Type 0
CarriedOut h busy a req call =
    (busy ≡ false) × Means req.action req.id call × IsLive h req a × (h.rpc call ≡ none)

pub act_carried_iff :
    (h : Helper) (busy : Bool) (a : Answer) (req : ControlRequest) (call : RpcCall)
    → (act h busy a req ≡ called call none) ↔ CarriedOut h busy a req call
unfolding act
act_carried_iff h busy a req call =
    let (to, from) = act_iff h busy a req call in
    let reports = act_known-Reports h busy a req (rpc_call req.action req.id) in
    (
      λ e.
          let (free, means, live) = to (subst (IsCall call) (sym e) refl) in
          (free, means, live, (subst (Reports h req) e reports).0 refl),
      λ (free, means, live, works).
          of_acted (act h busy a req) (from (free, means, live)) reports works,
    )
  where
    of_acted :
        (x : Acted) → IsCall call x → Reports h req x → h.rpc call ≡ none → x ≡ called call none
    of_acted (denied e) c r works = absurd (ground (arith, c))
    of_acted (called made result) c r works = ap₂ called c (r.1 (ap h.rpc c ∙ works))
