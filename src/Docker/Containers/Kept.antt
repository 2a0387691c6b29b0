-- ===== src/Docker/Containers/Kept.antt =====
-- What of a container its unit has, and which containers are kept.
use pc_monitor.Base.{
  ℕ, true, false, List, [], ◌∷◌, Option, none, some, Bytes, codes, bytes_eq, bytes_eq_iff,
  bytes_eq_refl, any, All, ◌≢◌, lookup, Bool-cases, ◌≡◌, refl, ◌∙◌, arith, ◌⊎◌, inl, inr,
}
use pc_monitor.Base.Int.{pos}
use pc_monitor.Provider.{ProviderUnit, actions_for, state_running}
use pc_monitor.Docker.Containers.{
  Container, Inspect, Stats, CpuSample, Filter, Answers, name_of, has_label, hidden, map_state,
  plain_unit, inspected, measured, unit_of,
}

-- The unit is one of the containers, which has no excluded label with its value, and it runs only
-- where Docker says so.
abbrev pub IsOneOf : Filter → ProviderUnit → List Container → Type 0
IsOneOf f u [] = true ≡ false
IsOneOf f u (c ∷ cs) =
    ((name_of c.names c.id ≡ some u.id)
      × All (λ kv. lookup kv.0 c.labels ≢ some kv.1) f.exclude_labels
      × ((c.state ≡ codes "running") ⊎ (u.state ≢ state_running)))
    ⊎ IsOneOf f u cs

-- What a unit has that does not run, whatever `inspect` says.
pub record IsPlain (name : Bytes) (state : Bytes) (u : ProviderUnit) : Type 0 where
  pub id_is : u.id ≡ name
  pub state_is : u.state ≡ state
  pub offers : u.actions ≡ some (actions_for state)
  pub no_cpu : u.cpu ≡ none
  pub no_mem : u.mem_bytes ≡ none
  pub no_limit : u.mem_limit ≡ none
  pub uptime : (state ≡ state_running) ⊎ (u.uptime_sec ≡ pos 0)

pub inspected-IsPlain :
    (i : Option Inspect) (now : ℕ) (name : Bytes) (c : Container)
    → IsPlain name (map_state c.state) (inspected i now (plain_unit name c))
unfolding inspected plain_unit
inspected-IsPlain none now name c = record {
  id_is = refl;
  state_is = refl;
  offers = refl;
  no_cpu = refl;
  no_mem = refl;
  no_limit = refl;
  uptime = inr refl;
}
inspected-IsPlain (some i) now name c = record {
  id_is = refl;
  state_is = refl;
  offers = refl;
  no_cpu = refl;
  no_mem = refl;
  no_limit = refl;
  uptime = elim (Bool-cases (bytes_eq (map_state c.state) state_running)) [
    | inl e ↦ inl ((bytes_eq_iff (map_state c.state) state_running).0 e)
    | inr e ↦ inr (rw e refl)
  ];
}

has_label-lookup :
    (labels : List (Bytes × Bytes)) (kv : Bytes × Bytes)
    → has_label labels kv ≡ false
    → lookup kv.0 labels ≢ some kv.1
has_label-lookup labels (k, v) h e =
    absurd (ground (arith, bytes_eq_refl v, rw (e, has_label) at h))

any-has_label :
    (labels : List (Bytes × Bytes)) (kvs : List (Bytes × Bytes))
    → any (has_label labels) kvs ≡ false
    → All (λ kv. lookup kv.0 labels ≢ some kv.1) kvs
unfolding any
any-has_label labels [] h = tt
any-has_label labels (kv ∷ kvs) h =
    (has_label-lookup labels kv (ground (arith, h)), any-has_label labels kvs (ground (arith, h)))

pub hidden-labels :
    (f : Filter) (name : Bytes) (c : Container)
    → hidden f name c ≡ false
    → All (λ kv. lookup kv.0 c.labels ≢ some kv.1) f.exclude_labels
unfolding hidden
hidden-labels f name c h = any-has_label c.labels f.exclude_labels (ground (arith, h))

measured-id :
    (id : Bytes) (st : Option Stats) (prev : List (Bytes × CpuSample)) (u : ProviderUnit)
    → (measured id st prev u).0.id ≡ u.id
unfolding measured
measured-id id none prev u = refl
measured-id id (some st) prev u = refl

pub unit_of-id :
    (api : Answers) (now : ℕ) (name : Bytes) (c : Container) (prev : List (Bytes × CpuSample))
    → (unit_of api now name c prev).0.id ≡ name
unfolding unit_of
unit_of-id api now name c prev =
    let p = inspected-IsPlain (api.inspect c.id) now name c in
    elim (Bool-cases (bytes_eq (map_state c.state) state_running)) [
      | inl e ↦ rw e (measured-id c.id (api.stats c.id) prev _ ∙ p.id_is)
      | inr e ↦ rw e p.id_is
    ]

measured-state :
    (id : Bytes) (st : Option Stats) (prev : List (Bytes × CpuSample)) (u : ProviderUnit)
    → (measured id st prev u).0.state ≡ u.state
unfolding measured
measured-state id none prev u = refl
measured-state id (some st) prev u = refl

unit_of-state :
    (api : Answers) (now : ℕ) (name : Bytes) (c : Container) (prev : List (Bytes × CpuSample))
    → (unit_of api now name c prev).0.state ≡ map_state c.state
unfolding unit_of
unit_of-state api now name c prev =
    let p = inspected-IsPlain (api.inspect c.id) now name c in
    elim (Bool-cases (bytes_eq (map_state c.state) state_running)) [
      | inl e ↦ rw e (measured-state c.id (api.stats c.id) prev _ ∙ p.state_is)
      | inr e ↦ rw e p.state_is
    ]

-- No other state of Docker is shown as running.
map_state-running : (s : Bytes) → (s ≡ codes "running") ⊎ (map_state s ≢ state_running)
unfolding map_state bytes_eq
map_state-running s = elim (Bool-cases (bytes_eq s (codes "running"))) [
  | inl e ↦ inl ((bytes_eq_iff s (codes "running")).0 e)
  | inr e ↦ inr (λ h. ground (arith, e, h))
]

pub unit_of-runs :
    (api : Answers) (now : ℕ) (name : Bytes) (c : Container) (prev : List (Bytes × CpuSample))
    → (c.state ≡ codes "running") ⊎ ((unit_of api now name c prev).0.state ≢ state_running)
unit_of-runs api now name c prev =
    rw (unit_of-state api now name c prev) (map_state-running c.state)
