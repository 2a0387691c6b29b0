-- ===== src/Docker/Containers/Listed.antt =====
-- What `List` promises of the units.
use pc_monitor.Base.{
  ℕ, ◌<◌, false, List, [], ◌∷◌, Option, none, some, Bytes, bytes_eq, bytes_eq_iff, member, All,
  All-map, lookup, Bool-cases, Option-cases, ◌≡◌, sym, ap, ◌∙◌, arith, ◌⊎◌, inl, inr, subst,
}
use pc_monitor.Base.Int.{pos}
use pc_monitor.Provider.{Ratio, ProviderUnit, actions_for, state_running}
use pc_monitor.Docker.Containers.{
  Container, Stats, CpuSample, Filter, Answers, name_of, hidden, map_state, cpu_since, cpu_percent,
  measured, unit_of, add_unit, list_containers,
}
use pc_monitor.Docker.Containers.Kept.{
  IsOneOf, IsPlain, inspected-IsPlain, hidden-labels, unit_of-id, unit_of-runs,
}

-- A share that can be computed.
abbrev pub HasShare : Option Ratio → Type 0
HasShare none = Unit {0}
HasShare (some r) = 0 < r.den

pub record IsListed (f : Filter) (u : ProviderUnit) : Type 0 where
  pub allowed : member u.id f.exclude ≡ false
  pub offers : u.actions ≡ some (actions_for u.state)
  pub share : HasShare u.cpu
  pub figures :
      (u.state ≡ state_running)
      ⊎ ((u.cpu ≡ none) × (u.mem_bytes ≡ none) × (u.mem_limit ≡ none) × (u.uptime_sec ≡ pos 0))

cpu_since-HasShare :
    (prev : Option CpuSample) (cur : CpuSample) (cpus : ℕ) → HasShare (cpu_since prev cur cpus)
cpu_since-HasShare none cur cpus = tt
cpu_since-HasShare (some prev) cur cpus = ground arith

idle-IsListed :
    (f : Filter) (name state : Bytes) (u : ProviderUnit)
    → IsPlain name state u
    → member name f.exclude ≡ false
    → bytes_eq state state_running ≡ false
    → IsListed f u
idle-IsListed f name state u p h e = record {
  allowed = ap (λ i. member i f.exclude) p.id_is ∙ h;
  offers = p.offers ∙ ap (λ s. some (actions_for s)) (sym p.state_is);
  share = subst HasShare (sym p.no_cpu) tt;
  figures = elim p.uptime [
    | inl is ↦ absurd (ground (arith, e, (bytes_eq_iff state state_running).1 is))
    | inr up ↦ inr (p.no_cpu, p.no_mem, p.no_limit, up)
  ];
}

measured-IsListed :
    (f : Filter) (name state id : Bytes) (st : Option Stats) (prev : List (Bytes × CpuSample))
    (u : ProviderUnit)
    → IsPlain name state u
    → member name f.exclude ≡ false
    → state ≡ state_running
    → IsListed f (measured id st prev u).0
unfolding measured cpu_percent
measured-IsListed f name state id none prev u p h e = record {
  allowed = ap (λ i. member i f.exclude) p.id_is ∙ h;
  offers = p.offers ∙ ap (λ s. some (actions_for s)) (sym p.state_is);
  share = subst HasShare (sym p.no_cpu) tt;
  figures = inl (p.state_is ∙ e);
}
measured-IsListed f name state id (some st) prev u p h e = record {
  allowed = ap (λ i. member i f.exclude) p.id_is ∙ h;
  offers = p.offers ∙ ap (λ s. some (actions_for s)) (sym p.state_is);
  share = cpu_since-HasShare (lookup id prev) _ st.online_cpus;
  figures = inl (p.state_is ∙ e);
}

unit_of-IsListed :
    (f : Filter) (api : Answers) (now : ℕ) (name : Bytes) (c : Container)
    (prev : List (Bytes × CpuSample))
    → member name f.exclude ≡ false
    → IsListed f (unit_of api now name c prev).0
unfolding unit_of
unit_of-IsListed f api now name c prev h =
    let p = inspected-IsPlain (api.inspect c.id) now name c in
    elim (Bool-cases (bytes_eq (map_state c.state) state_running)) [
      | inl e ↦ rw e (
          measured-IsListed f name (map_state c.state) c.id (api.stats c.id) prev _ p h
            ((bytes_eq_iff (map_state c.state) state_running).0 e))
      | inr e ↦ rw e (idle-IsListed f name (map_state c.state) _ p h e)
    ]

hidden-excluded :
    (f : Filter) (name : Bytes) (c : Container)
    → hidden f name c ≡ false
    → member name f.exclude ≡ false
unfolding hidden
hidden-excluded f name c h = ground arith

-- What holds of each unit of a list.
abbrev AllListed :
    Filter → List Container → Option (List ProviderUnit × List (Bytes × CpuSample)) → Type 0
AllListed f cs none = Unit {0}
AllListed f cs (some p) = All (λ u. IsListed f u × IsOneOf f u cs) p.0

more-AllListed :
    (f : Filter) (c : Container) (cs : List Container)
    (o : Option (List ProviderUnit × List (Bytes × CpuSample)))
    → AllListed f cs o
    → AllListed f (c ∷ cs) o
more-AllListed f c cs none h = tt
more-AllListed f c cs (some p) h =
    All-map (λ u. IsListed f u × IsOneOf f u cs) (λ u. IsListed f u × IsOneOf f u (c ∷ cs)) p.0
      (λ u (is, one). (is, inr one)) h

add_unit-AllListed :
    (f : Filter) (cs : List Container) (shown : ProviderUnit × List (Bytes × CpuSample))
    (rest : Option (List ProviderUnit × List (Bytes × CpuSample)))
    → IsListed f shown.0 × IsOneOf f shown.0 cs
    → AllListed f cs rest
    → AllListed f cs (add_unit shown rest)
add_unit-AllListed f cs (u, prev) none is h = tt
add_unit-AllListed f cs (u, prev) (some (us, prev')) is h = (is, h)

list_containers-AllListed :
    (f : Filter) (api : Answers) (now : ℕ) (cs : List Container) (prev : List (Bytes × CpuSample))
    → AllListed f cs (list_containers f api now cs prev)
unfolding list_containers
list_containers-AllListed f api now [] prev = tt
list_containers-AllListed f api now (c ∷ cs) prev = elim (Option-cases (name_of c.names c.id)) [
  | inl e ↦ rw (e, list_containers) tt
  | inr (name, e) ↦ elim (Bool-cases (hidden f name c)) [
    | inl h ↦
        rw (e, list_containers, h)
          (more-AllListed f c cs _ (list_containers-AllListed f api now cs prev))
    | inr h ↦
        rw (e, list_containers, h)
          (add_unit-AllListed f (c ∷ cs) (unit_of api now name c prev) _
            (
              unit_of-IsListed f api now name c prev (hidden-excluded f name c h),
              inl (
                e ∙ ap some (sym (unit_of-id api now name c prev)),
                hidden-labels f name c h,
                unit_of-runs api now name c prev,
              ),
            )
            (more-AllListed f c cs _
              (list_containers-AllListed f api now cs (unit_of api now name c prev).1)))
  ]
]

-- Whatever Docker answers, a unit that `List` gives is that of one of the containers, and has
-- neither a name nor a label with a value that is excluded; it runs only where Docker says so,
-- offers exactly the actions of its state, has CPU, memory and uptime only where it is running, and
-- a CPU share only over a time that is not zero.
pub list_containers-IsListed :
    (f : Filter) (api : Answers) (now : ℕ) (cs : List Container) (prev : List (Bytes × CpuSample))
    {us : List ProviderUnit} {prev' : List (Bytes × CpuSample)}
    → list_containers f api now cs prev ≡ some (us, prev')
    → All (λ u. IsListed f u × IsOneOf f u cs) us
list_containers-IsListed f api now cs prev h =
    subst (AllListed f cs) h (list_containers-AllListed f api now cs prev)
