-- ===== src/Pterodactyl/Listed.antt =====
-- What `List` promises of game servers.
use pc_monitor.Base.{
  Bool, true, false, List, [], ◌∷◌, map, none, some, Bytes, codes, bytes_eq, bytes_eq_iff,
  Bool-cases, inl, inr, ◌⊎◌, ◌≡◌, refl, arith,
}
use pc_monitor.Base.Int.{pos}
use pc_monitor.Provider.{ProviderUnit, actions_for, state_running}
use pc_monitor.Pterodactyl.{
  PanelServer, Resources, Reply, Result, failed, result, Panel, api, map_state, held, plain_unit,
  with_resources, server_unit, resources_path, unit_of, list_path, units_from, list_servers,
}

-- The actions are those of the state, or none; figures are there only where the server runs.
pub record IsListed (u : ProviderUnit) : Type 0 where
  pub offers : (u.actions ≡ some []) ⊎ (u.actions ≡ some (actions_for u.state))
  pub figures :
      (u.state ≡ state_running) ⊎ ((u.cpu ≡ none) × (u.mem_bytes ≡ none) × (u.uptime_sec ≡ pos 0))

-- It can be controlled and it runs only where the panel answered so, and it is not held back.
pub record Answered (p : Panel) (get : Bytes → Reply) (s : PanelServer) (u : ProviderUnit)
    : Type 0 where
  pub listed : IsListed u
  pub same : u.id ≡ s.identifier
  pub free : (u.actions ≡ some []) ⊎ ((s.is_suspended ≡ false) × (s.is_installing ≡ false))
  pub running :
      u.state ≡ state_running
      → (r : Resources) × (api p p.decode_resources (get (resources_path p s.identifier))
          ≡ result r)
        × (r.current_state ≡ codes "running")

-- No other state of the panel is shown as running.
map_state_running : (s : Bytes) → map_state s ≡ state_running → s ≡ codes "running"
unfolding map_state bytes_eq
map_state_running s h = elim (Bool-cases (bytes_eq s (codes "running"))) [
  | inl e ↦ (bytes_eq_iff s (codes "running")).0 e
  | inr e ↦ absurd (ground (arith, e, h))
]

with_resources-Answered :
    (p : Panel) (get : Bytes → Reply) (s : PanelServer) (res : Result Resources)
    → api p p.decode_resources (get (resources_path p s.identifier)) ≡ res
    → s.is_suspended ≡ false
    → s.is_installing ≡ false
    → Answered p get s (with_resources res (plain_unit s))
unfolding with_resources plain_unit bytes_eq
with_resources-Answered p get s (failed e) h susp inst = record {
  listed = record { offers = inl refl; figures = inr (refl, refl, refl) };
  same = refl;
  free = inl refl;
  running = λ e. absurd (ground (arith, e));
}
with_resources-Answered p get s (result r) h susp inst = record {
  listed = record {
    offers = inr refl;
    figures = elim (Bool-cases (bytes_eq (map_state r.current_state) state_running)) [
      | inl e ↦ inl ((bytes_eq_iff (map_state r.current_state) state_running).0 e)
      | inr e ↦ inr (rw e refl, rw e refl, rw e refl)
    ];
  };
  same = refl;
  free = inr (susp, inst);
  running = λ e. (r, h, map_state_running r.current_state e);
}

server_unit-Answered :
    (p : Panel) (get : Bytes → Reply) (s : PanelServer) (susp inst : Bool)
    → s.is_suspended ≡ susp
    → s.is_installing ≡ inst
    → Answered p get s (
        server_unit
          (held susp inst)
          (api p p.decode_resources (get (resources_path p s.identifier)))
          s)
unfolding plain_unit
server_unit-Answered p get s true inst e f = record {
  listed = record { offers = inl refl; figures = inr (refl, refl, refl) };
  same = refl;
  free = inl refl;
  running = λ h. absurd (ground (arith, h));
}
server_unit-Answered p get s false true e f = record {
  listed = record { offers = inl refl; figures = inr (refl, refl, refl) };
  same = refl;
  free = inl refl;
  running = λ h. absurd (ground (arith, h));
}
server_unit-Answered p get s false false e f =
    with_resources-Answered p get s (api p p.decode_resources (get (resources_path p s.identifier)))
      refl e f

unit_of-Answered :
    (p : Panel) (get : Bytes → Reply) (s : PanelServer) → Answered p get s (unit_of p get s)
unfolding unit_of
unit_of-Answered p get s = server_unit-Answered p get s s.is_suspended s.is_installing refl refl

-- Two lists of the same length, related one by one.
abbrev pub Pairs :
    (PanelServer → ProviderUnit → Type 0) → List PanelServer → List ProviderUnit → Type 0
Pairs P [] [] = Unit {0}
Pairs P [] (u ∷ us) = true ≡ false
Pairs P (s ∷ ss) [] = true ≡ false
Pairs P (s ∷ ss) (u ∷ us) = P s u × Pairs P ss us

units-Answered :
    (p : Panel) (get : Bytes → Reply) (ss : List PanelServer)
    → Pairs (Answered p get) ss (map {A = PanelServer} (unit_of p get) ss)
units-Answered p get [] = tt
units-Answered p get (s ∷ ss) = (unit_of-Answered p get s, units-Answered p get ss)

-- What the panel answers to the list, and what becomes of it.
abbrev pub Served :
    Panel → (Bytes → Reply) → Result (List PanelServer) → Result (List ProviderUnit) → Type 0
Served p get (failed e) (failed f) = e ≡ f
Served p get (failed e) (result us) = true ≡ false
Served p get (result ss) (failed e) = true ≡ false
Served p get (result ss) (result us) = Pairs (Answered p get) ss us

-- The list fails exactly where the panel's answer does, with its error; otherwise there is one unit
-- per server, with its id, which runs only where the panel says so, can be controlled only where it
-- is neither suspended nor installing, then with the actions of its state, and has figures only
-- where it runs.
pub list_servers-Served :
    (p : Panel) (all : Bool) (get : Bytes → Reply)
    → Served p get (api p p.decode_servers (get (list_path all))) (list_servers p all get)
unfolding list_servers
list_servers-Served p all get = of_answer (api p p.decode_servers (get (list_path all)))
  where
    of_answer : (a : Result (List PanelServer)) → Served p get a (units_from p get a)
    of_answer (failed e) = refl
    of_answer (result ss) = units-Answered p get ss
