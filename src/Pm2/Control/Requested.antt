-- ===== src/Pm2/Control/Requested.antt =====
-- What the action of a request from dashd can be.
use pc_monitor.Base.{
  Bool, true, false, ◌||◌, List, some, Bytes, codes, bytes_eq, bytes_eq_iff, Bool-cases, inl, inr,
  ◌≡◌, ◌⊎◌, [], ◌∷◌, ap, ◌∙◌, subst, arith,
}
use pc_monitor.Base.Int.{ℤ, pos}
use pc_monitor.Provider.{action_start, action_stop, action_restart}
use pc_monitor.Pm2.Clean.{Unicode}
use pc_monitor.Pm2.Processes.{Bound, bind}
use pc_monitor.Pm2.Processes.Snapshot.{
  File, Taken, fresh, not_fresh, snapshot, ControlRequest, send, find_bound, request_for,
  request_from, do_process,
}

abbrev is_action : Bytes → Bool
is_action action =
    bytes_eq action action_start || bytes_eq action action_stop || bytes_eq action action_restart

-- No action is the request for logs.
not_logs : (action : Bytes) → is_action action ≡ true → bytes_eq action (codes "logs") ≡ false
unfolding bytes_eq
not_logs action h = elim (Bool-cases (bytes_eq action (codes "logs"))) [
  | inr e ↦ e
  | inl e ↦
      let is : action ≡ codes "logs" = (bytes_eq_iff action (codes "logs")).0 e in
      absurd (ground (arith, subst (λ x. is_action x ≡ true) is h))
]

-- A process with a unit of the id, which the request has the number and the name of.
abbrev pub IsUnitOf : Bytes → ControlRequest → List Bound → Type 0
IsUnitOf id req [] = true ≡ false
IsUnitOf id req (b ∷ bs) =
    ((b.unit.id ≡ id) × (req.id ≡ b.proc.id) × (req.name ≡ b.proc.name)) ⊎ IsUnitOf id req bs

-- The request is for the action, on the process behind the unit in a fresh snapshot.
abbrev pub Asks : Unicode → List Bytes → ℤ → Taken → Bytes → Bytes → ControlRequest → Type 0
Asks u exclude now (not_fresh e) id action req = true ≡ false
Asks u exclude now (fresh ps) id action req =
    (req.action ≡ action) × IsUnitOf id req (bind u exclude now ps)

request_for-find_bound :
    (action id : Bytes) (tail : ℤ) (bs : List Bound) (req : ControlRequest)
    → request_for action tail (find_bound id bs) ≡ send req
    → (req.action ≡ action) × IsUnitOf id req bs
unfolding find_bound
request_for-find_bound action id tail [] req h = absurd (ground (arith, h))
request_for-find_bound action id tail (b ∷ bs) req h = elim (Bool-cases (bytes_eq b.unit.id id)) [
  | inl e ↦ made ((bytes_eq_iff b.unit.id id).0 e) (rw e at h)
  | inr e ↦
      let (same, more) = request_for-find_bound action id tail bs req (rw e at h) in
      (same, inr more)
]
  where
    made :
        b.unit.id ≡ id
        → request_for action tail (some b.proc) ≡ send req
        → (req.action ≡ action) × IsUnitOf id req (b ∷ bs)
    made is k = (cc, inl (is, cc, cc))

request_from-Asks :
    (u : Unicode) (exclude : List Bytes) (now : ℤ) (t : Taken) (id action : Bytes) (tail : ℤ)
    (req : ControlRequest)
    → request_from u exclude now t id action tail ≡ send req
    → Asks u exclude now t id action req
unfolding request_from
request_from-Asks u exclude now (not_fresh e) id action tail req h = absurd (ground (arith, h))
request_from-Asks u exclude now (fresh ps) id action tail req h =
    request_for-find_bound action id tail (bind u exclude now ps) req h

Asks-action :
    (u : Unicode) (exclude : List Bytes) (now : ℤ) (t : Taken) (id action : Bytes)
    (req : ControlRequest)
    → Asks u exclude now t id action req
    → req.action ≡ action
Asks-action u exclude now (not_fresh e) id action req h = absurd (ground (arith, h))
Asks-action u exclude now (fresh ps) id action req h = h.0

pub do_process-Asks :
    (u : Unicode) (exclude : List Bytes) (now : ℤ) (file : File) (id action : Bytes)
    (req : ControlRequest)
    → do_process u exclude now file id action ≡ send req
    → Asks u exclude now (snapshot u now file) id action req
unfolding do_process
do_process-Asks u exclude now file id action req h = elim (Bool-cases (is_action action)) [
  | inl e ↦ request_from-Asks u exclude now (snapshot u now file) id action (pos 0) req (rw e at h)
  | inr e ↦ absurd (ground (arith, rw e at h))
]

pub do_process-action :
    (u : Unicode) (exclude : List Bytes) (now : ℤ) (file : File) (id action : Bytes)
    (req : ControlRequest)
    → do_process u exclude now file id action ≡ send req
    → bytes_eq req.action (codes "logs") ≡ false
unfolding do_process
do_process-action u exclude now file id action req h = elim (Bool-cases (is_action action)) [
  | inl e ↦
      let asks = do_process-Asks u exclude now file id action req h in
      let same = Asks-action u exclude now (snapshot u now file) id action req asks in
      ap (λ x. bytes_eq x (codes "logs")) same ∙ not_logs action e
  | inr e ↦ absurd (ground (arith, rw e at h))
]
