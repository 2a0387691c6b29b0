-- ===== src/Systemd/Listed.antt =====
-- The units that `List` gives.
use pc_monitor.Base.{
  ℕ, true, List, [], ◌∷◌, none, some, Bytes, codes, bytes_eq, bytes_eq_iff, member, All, All-append,
  Bool-cases, ◌≡◌, refl, inl, inr, ◌⊎◌,
}
use pc_monitor.Base.Int.{pos}
use pc_monitor.Provider.{ProviderUnit, actions_for, state_running}
use pc_monitor.Provider.Registry.Ids.{units_of}
use pc_monitor.Systemd.{
  Props, prop, parse_show, CpuPrev, state_of, idle_unit, running_unit, unit_of, allowed_unit,
  list_blocks, Ran, printed, failed_with, list_units,
}

-- What `List` promises of a unit: it is of the allowlist, has the actions of its state, and no
-- figures of a running unit unless it runs.
pub record IsListed (units : List Bytes) (u : ProviderUnit) : Type 0 where
  pub allowed : member u.id units ≡ true
  pub offers : u.actions ≡ some (actions_for u.state)
  pub figures :
      (u.state ≡ state_running) ⊎ ((u.cpu ≡ none) × (u.mem_bytes ≡ none) × (u.uptime_sec ≡ pos 0))

unit_of-IsListed :
    (units : List Bytes) (id : Bytes) (props : Props) (mono now : ℕ) (prev : List (Bytes × CpuPrev))
    → member id units ≡ true
    → IsListed units (unit_of id props mono now prev).0
unfolding unit_of running_unit idle_unit
unit_of-IsListed units id props mono now prev h =
    elim (Bool-cases (bytes_eq (state_of props) state_running)) [
      | inl e ↦ rw e (record {
        allowed = h;
        offers = refl;
        figures = inl ((bytes_eq_iff (state_of props) state_running).0 e);
      })
      | inr e ↦ rw e (record { allowed = h; offers = refl; figures = inr (refl, refl, refl) })
    ]

allowed_unit-IsListed :
    (units : List Bytes) (b : Props) (mono now : ℕ) (prev : List (Bytes × CpuPrev))
    → All (IsListed units) (allowed_unit units b mono now prev).0
unfolding allowed_unit
allowed_unit-IsListed units b mono now prev =
    elim (Bool-cases (member (prop b (codes "Id")) units)) [
      | inl e ↦ rw e (unit_of-IsListed units (prop b (codes "Id")) b mono now prev e, tt)
      | inr e ↦ rw e tt
    ]

list_blocks-IsListed :
    (units : List Bytes) (bs : List Props) (mono now : ℕ) (prev : List (Bytes × CpuPrev))
    → All (IsListed units) (list_blocks units bs mono now prev).0
unfolding list_blocks
list_blocks-IsListed units [] mono now prev = tt
list_blocks-IsListed units (b ∷ bs) mono now prev =
    All-append (IsListed units) (allowed_unit units b mono now prev).0 _
      (allowed_unit-IsListed units b mono now prev)
      (list_blocks-IsListed units bs mono now (allowed_unit units b mono now prev).1)

-- Whatever systemctl prints, every unit that `List` gives is of the allowlist, offers exactly the
-- actions of its state, and has CPU, memory and uptime only where it is running.
pub list_units-IsListed :
    (units : List Bytes) (r : Ran) (mono now : ℕ) (prev : List (Bytes × CpuPrev))
    → All (IsListed units) (units_of (list_units units r mono now prev).0)
unfolding list_units
list_units-IsListed [] r mono now prev = tt
list_units-IsListed (u ∷ us) (failed_with e) mono now prev = tt
list_units-IsListed (u ∷ us) (printed out) mono now prev =
    list_blocks-IsListed (u ∷ us) (parse_show out) mono now prev
