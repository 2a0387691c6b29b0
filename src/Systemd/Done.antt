-- ===== src/Systemd/Done.antt =====
-- What `Do` runs, as systemctl reads its command line.
use pc_monitor.Base.{
  true, false, List, [], ◌∷◌, Bytes, codes, bytes_eq, bytes_eq_iff, member, Bool-cases, ◌≡◌, ◌↔◌,
  refl, ap, arith, inl, inr, ◌⊎◌, ◌==◌, if◌then◌else◌,
}
use pc_monitor.Provider.{bad_action, unknown_unit, other_error, valid_action}
use pc_monitor.Systemd.{Request, refused, command, do_unit}

-- The options and the operands of a command line: an argument that begins with a dash is an option,
-- and all that stands behind `--` is an operand.
abbrev pub sort_args : List Bytes → List Bytes × List Bytes
sort_args [] = ([], [])
sort_args ([] ∷ args) = let (opts, rest) = sort_args args in (opts, [] ∷ rest)
sort_args ((c ∷ a) ∷ args) =
    let (opts, rest) = sort_args args in
    if bytes_eq (c ∷ a) (codes "--")
    then ([], args)
    else if c == b'-'
    then ((c ∷ a) ∷ opts, rest)
    else (opts, (c ∷ a) ∷ rest)

abbrev pub IsAmong : Bytes → List Bytes → Type 0
IsAmong id [] = true ≡ false
IsAmong id (u ∷ us) = (u ≡ id) ⊎ IsAmong id us

abbrev pub IsAction : Bytes → Type 0
IsAction a =
    (a ≡ codes "start") ⊎ ((a ≡ codes "stop") ⊎ ((a ≡ codes "restart") ⊎ (a ≡ codes "kill")))

-- What may become of a request: systemctl is run for a unit of the allowlist and one of the four
-- actions, with both as operands, so that neither is taken as an option; a unit that is not of the
-- allowlist is unknown, and of another action the action is bad.
abbrev pub Outcome : List Bytes → Bytes → Bytes → Request → Type 0
Outcome units id action (refused unknown_unit) = ¬ IsAmong id units
Outcome units id action (refused bad_action) = IsAmong id units × ¬ IsAction action
Outcome units id action (refused (other_error e)) = true ≡ false
Outcome units id action (command name args) =
    IsAmong id units
    × IsAction action
    × (name ≡ codes "systemctl")
    × (sort_args args ≡ (codes "--no-ask-password" ∷ [], action ∷ id ∷ []))

member_iff : (id : Bytes) (us : List Bytes) → (member id us ≡ true) ↔ IsAmong id us
unfolding member
member_iff id [] = ground arith
member_iff id (u ∷ us) =
    let (to, from) = bytes_eq_iff u id in
    let (to', from') = member_iff id us in
    elim (Bool-cases (bytes_eq u id)) [
      | inl e ↦ rw e (λ h. inl (to e), λ h. refl)
      | inr e ↦ rw e (
        λ h. inr (to' h),
        λ h. elim h [ inl is ↦ absurd (ground (arith, e, from is)) | inr more ↦ from' more ],
      )
    ]

valid_action-IsAction : (a : Bytes) → valid_action a ≡ true → IsAction a
unfolding valid_action
valid_action-IsAction a h = ground (
  arith,
  (bytes_eq_iff a (codes "start")).0,
  (bytes_eq_iff a (codes "stop")).0,
  (bytes_eq_iff a (codes "restart")).0,
  (bytes_eq_iff a (codes "kill")).0,
)

IsAction-valid_action : (a : Bytes) → IsAction a → valid_action a ≡ true
unfolding valid_action bytes_eq
IsAction-valid_action a (inl e) = ap valid_action e
IsAction-valid_action a (inr (inl e)) = ap valid_action e
IsAction-valid_action a (inr (inr (inl e))) = ap valid_action e
IsAction-valid_action a (inr (inr (inr e))) = ap valid_action e

-- No action is an option, and the unit stands behind `--`.
sort_args-action :
    (a id : Bytes)
    → IsAction a
    → sort_args (codes "--no-ask-password" ∷ a ∷ codes "--" ∷ id ∷ [])
      ≡ (codes "--no-ask-password" ∷ [], a ∷ id ∷ [])
unfolding bytes_eq
sort_args-action a id (inl e) = rw e refl
sort_args-action a id (inr (inl e)) = rw e refl
sort_args-action a id (inr (inr (inl e))) = rw e refl
sort_args-action a id (inr (inr (inr e))) = rw e refl

-- `Do` runs systemctl for a unit of the allowlist and one of the four actions, start, stop, restart
-- and kill, where systemctl finds one option, that it asks for no password, and takes the action and
-- the unit as they are, whatever the unit begins with; it refuses every other unit as unknown, and
-- for a unit of the allowlist every other action as bad.
pub do_unit-Outcome :
    (units : List Bytes) (id action : Bytes) → Outcome units id action (do_unit units id action)
unfolding do_unit
do_unit-Outcome units id action = elim (Bool-cases (member id units)) [
  | inr e ↦ rw e (λ h. ground (arith, e, (member_iff id units).1 h))
  | inl e ↦ elim (Bool-cases (valid_action action)) [
    | inr f ↦
        rw (e, f)
          ((member_iff id units).0 e, λ h. ground (arith, f, IsAction-valid_action action h))
    | inl f ↦
        let is = valid_action-IsAction action f in
        rw (e, f) ((member_iff id units).0 e, is, refl, sort_args-action action id is)
  ]
]
