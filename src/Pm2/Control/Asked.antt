-- ===== src/Pm2/Control/Asked.antt =====
-- What a request asks of pm2, said without the tests that the helper makes.
use pc_monitor.Base.{
  Bool, true, false, ◌&&◌, List, [], ◌∷◌, map, Option, none, some, Bytes, codes, bytes_eq,
  bytes_eq_iff, any, Bool-cases, ◌≡◌, ◌↔◌, ◌⊎◌, refl, sym, ap, ◌∙◌, subst, arith, inl, inr,
}
use pc_monitor.Base.Int.{ℤ, pos, negsuc, ◌==ℤ◌}
use pc_monitor.Pm2.Clean.{Unicode, clean}
use pc_monitor.Pm2.Processes.Snapshot.{ControlRequest}
use pc_monitor.Pm2.Control.{
  JlistProc, proc_of, RpcCall, start_process, stop_process, restart_process, rpc_call, is_same,
}

-- An entry of pm2's list has the id of the request and, as dashd shows names, its name.
abbrev pub Has : Unicode → ControlRequest → List JlistProc → Type 0
Has u req [] = true ≡ false
Has u req (r ∷ rs) = ((r.pm_id ≡ req.id) × (clean u 64 r.name ≡ req.name)) ⊎ Has u req rs

abbrev pub HasSame : Unicode → ControlRequest → Option (List JlistProc) → Type 0
HasSame u req none = true ≡ false
HasSame u req (some rs) = Has u req rs

-- The call of pm2 that an action on an id asks for.
abbrev pub Means : Bytes → ℤ → RpcCall → Type 0
Means action id (start_process n) = (action ≡ codes "start") × (n ≡ id)
Means action id (stop_process n) = (action ≡ codes "stop") × (n ≡ id)
Means action id (restart_process n) = (action ≡ codes "restart") × (n ≡ id)

pub rpc_call-Means :
    (action : Bytes) (id : ℤ) (call : RpcCall)
    → rpc_call action id ≡ some call
    → Means action id call
unfolding rpc_call
rpc_call-Means action id call h = elim (Bool-cases (bytes_eq action (codes "start"))) [
  | inl e ↦
      of_call call (start_process id) ((bytes_eq_iff action (codes "start")).0 e, refl) (rw e at h)
  | inr e ↦ elim (Bool-cases (bytes_eq action (codes "stop"))) [
    | inl f ↦
        of_call call (stop_process id) ((bytes_eq_iff action (codes "stop")).0 f, refl)
          (rw (e, f) at h)
    | inr f ↦ elim (Bool-cases (bytes_eq action (codes "restart"))) [
      | inl g ↦
          of_call call (restart_process id) ((bytes_eq_iff action (codes "restart")).0 g, refl)
            (rw (e, f, g) at h)
      | inr g ↦ absurd (ground (arith, rw (e, f, g) at h))
    ]
  ]
]
  where
    of_call :
        (call made : RpcCall) → Means action id made → some made ≡ some call → Means action id call
    of_call call made m e = subst (Means action id) (some_eq e) m
      where
        some_eq : {a b : RpcCall} → some a ≡ some b → a ≡ b
        some_eq k = cc

pub Means-rpc_call :
    (action : Bytes) (id : ℤ) (call : RpcCall)
    → Means action id call
    → rpc_call action id ≡ some call
unfolding rpc_call bytes_eq
Means-rpc_call action id (start_process n) (e, i) =
    ap (λ a. rpc_call a id) e ∙ ap (λ k. some (start_process k)) (sym i)
Means-rpc_call action id (stop_process n) (e, i) =
    ap (λ a. rpc_call a id) e ∙ ap (λ k. some (stop_process k)) (sym i)
Means-rpc_call action id (restart_process n) (e, i) =
    ap (λ a. rpc_call a id) e ∙ ap (λ k. some (restart_process k)) (sym i)

==ℤ_iff : (a b : ℤ) → ((a ==ℤ b) ≡ true) ↔ (a ≡ b)
==ℤ_iff (pos a) (pos b) = ground arith
==ℤ_iff (pos a) (negsuc b) = ground arith
==ℤ_iff (negsuc a) (pos b) = ground arith
==ℤ_iff (negsuc a) (negsuc b) = ground arith

and_iff {ℓ} :
    {P Q : Type ℓ} (a b : Bool) → (a ≡ true) ↔ P → (b ≡ true) ↔ Q → ((a && b) ≡ true) ↔ (P × Q)
and_iff false b p q = (λ h. absurd (ground (arith, h)), λ (x, y). p.1 x)
and_iff true b p q = (λ h. (p.0 refl, q.0 h), λ (x, y). q.1 y)

is_same_iff :
    (u : Unicode) (req : ControlRequest) (r : JlistProc)
    → (is_same req (proc_of u r) ≡ true) ↔ ((r.pm_id ≡ req.id) × (clean u 64 r.name ≡ req.name))
unfolding proc_of
is_same_iff u req r =
    and_iff (r.pm_id ==ℤ req.id) (bytes_eq (clean u 64 r.name) req.name) (==ℤ_iff r.pm_id req.id)
      (bytes_eq_iff (clean u 64 r.name) req.name)

pub any-is_same_iff :
    (u : Unicode) (req : ControlRequest) (rs : List JlistProc)
    → (any (is_same req) (map (proc_of u) rs) ≡ true) ↔ Has u req rs
any-is_same_iff u req [] = ground arith
any-is_same_iff u req (r ∷ rs) =
    let (to, from) = is_same_iff u req r in
    let (to', from') = any-is_same_iff u req rs in
    elim (Bool-cases (is_same req (proc_of u r))) [
      | inl e ↦ rw e (λ h. inl (to e), λ h. refl)
      | inr e ↦ rw e (
        λ h. inr (to' h),
        λ h. elim h [ inl is ↦ absurd (ground (arith, e, from is)) | inr more ↦ from' more ],
      )
    ]
