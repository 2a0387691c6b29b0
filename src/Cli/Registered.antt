-- ===== src/Cli/Registered.antt =====
-- The registry that `serve` starts with.
use pc_monitor.Base.{
  false, List, [], ◌∷◌, ◌++◌, map, Option, none, some, Bytes, codes, bytes_eq, contains_byte,
  lookup, lookup-insert, append-nil, insert, All, if◌then◌else◌, ◌≡◌, refl, sym, ap, ◌∙◌, subst,
  append_assoc,
}
use pc_monitor.Config.{Config, Providers}
use pc_monitor.Provider.Registry.{
  is_blank, ServiceProvider, Registry, new_registry, added, add, list_all,
}
use pc_monitor.Provider.Registry.Routing.{Distinct, IsValid, new_registry-IsValid, add-IsValid}
use pc_monitor.Provider.Registry.Ids.{ids, LocallyDistinct, Distinct-list_all}
use pc_monitor.Cli.{
  Listings, named, block, real_ones, opened_audit, built, configured, add_all, Net, with_config,
  serve,
}

-- A name that the registry takes.
abbrev IsName : Bytes → Type 0
IsName n = (is_blank n ≡ false) × (contains_byte b':' n ≡ false)

abbrev names_of : List ServiceProvider → List Bytes
names_of ps = map (λ p. p.name) ps

-- The providers of a list, behind those that a registry has.
abbrev AddsAll : Registry → List ServiceProvider → Type 0
AddsAll r ps = (r' : Registry) × (add_all r ps ≡ some r') × IsValid r' × (r'.list ≡ r.list ++ ps)

abbrev with_one : Registry → ServiceProvider → Registry
with_one r p = record { list = r.list ++ (p ∷ []); by_name = insert p.name p r.by_name }

add-with_one :
    (r : Registry) (p : ServiceProvider)
    → IsName p.name
    → lookup p.name r.by_name ≡ none
    → add r p ≡ added (with_one r p)
unfolding add
add-with_one r p (named, plain) new = rw (named, plain, new) refl

IsNew_after :
    (r : Registry) (p : ServiceProvider) (ps : List ServiceProvider)
    → All (λ n. bytes_eq p.name n ≡ false) (names_of ps)
    → All (λ q. lookup q.name r.by_name ≡ none) ps
    → All (λ q. lookup q.name (with_one r p).by_name ≡ none) ps
IsNew_after r p [] apart new = tt
IsNew_after r p (q ∷ ps) (a, apart) (h, new) =
    (lookup-insert p.name q.name p r.by_name ∙ rw a h, IsNew_after r p ps apart new)

add-AddsAll :
    (r : Registry) (ps : List ServiceProvider)
    → IsValid r
    → All (λ p. IsName p.name) ps
    → Distinct (names_of ps)
    → All (λ p. lookup p.name r.by_name ≡ none) ps
    → AddsAll r ps
unfolding add_all
add-AddsAll r [] v names apart new = (r, refl, v, sym (append-nil r.list))
add-AddsAll r (p ∷ ps) v (name, names) (far, apart) (fresh, new) =
    let one : add r p ≡ added (with_one r p) = add-with_one r p name fresh in
    let (r', same, valid, list) =
      add-AddsAll (with_one r p) ps (add-IsValid r p v one) names apart
        (IsNew_after r p ps far new) in
    (r', rw (one, add_all) same, valid, list ∙ append_assoc r.list (p ∷ []) ps)

All-block {ℓ} :
    {A : Type ℓ} (P : Bytes → Type 0) (o : Option A) (p : ServiceProvider)
    (rest : List ServiceProvider)
    → P p.name
    → All P (names_of rest)
    → All P (names_of (block o p ++ rest))
All-block P none p rest h hs = hs
All-block P (some a) p rest h hs = (h, hs)

Distinct-block {ℓ} :
    {A : Type ℓ} (o : Option A) (p : ServiceProvider) (rest : List ServiceProvider)
    → All (λ n. bytes_eq p.name n ≡ false) (names_of rest)
    → Distinct (names_of rest)
    → Distinct (names_of (block o p ++ rest))
Distinct-block none p rest far d = d
Distinct-block (some a) p rest far d = (far, d)

module _ (ps : Providers) (l : Listings) where
  abbrev docker : ServiceProvider
  docker = named (codes "docker") l.docker

  abbrev pterodactyl : ServiceProvider
  pterodactyl = named (codes "pterodactyl") l.pterodactyl

  abbrev systemd : ServiceProvider
  systemd = named (codes "systemd") l.systemd

  abbrev pm2 : ServiceProvider
  pm2 = named (codes "pm2") l.pm2

  abbrev after_systemd : List ServiceProvider
  after_systemd = block ps.pm2 pm2

  abbrev after_pterodactyl : List ServiceProvider
  after_pterodactyl = block ps.systemd systemd ++ after_systemd

  abbrev after_docker : List ServiceProvider
  after_docker = block ps.pterodactyl pterodactyl ++ after_pterodactyl

  All-last : (P : Bytes → Type 0) → P (codes "pm2") → All P (names_of after_systemd)
  All-last P h =
      subst (λ qs. All P (names_of qs)) (append-nil after_systemd) (All-block P ps.pm2 pm2 [] h tt)

  All-real_ones :
      (P : Bytes → Type 0)
      → P (codes "docker")
      → P (codes "pterodactyl")
      → P (codes "systemd")
      → P (codes "pm2")
      → All P (names_of (real_ones ps l))
  All-real_ones P d t s m = All-block P ps.docker docker after_docker d (
      All-block P ps.pterodactyl pterodactyl after_pterodactyl t
        (All-block P ps.systemd systemd after_systemd s (All-last P m)))

  Distinct-real_ones : Distinct (names_of (real_ones ps l))
  unfolding bytes_eq
  Distinct-real_ones =
      Distinct-block ps.docker docker after_docker
        (All-block (λ n. bytes_eq (codes "docker") n ≡ false) ps.pterodactyl pterodactyl
          after_pterodactyl refl
          (All-block (λ n. bytes_eq (codes "docker") n ≡ false) ps.systemd systemd after_systemd
            refl (All-last (λ n. bytes_eq (codes "docker") n ≡ false) refl)))
        (Distinct-block ps.pterodactyl pterodactyl after_pterodactyl
          (All-block (λ n. bytes_eq (codes "pterodactyl") n ≡ false) ps.systemd systemd
            after_systemd refl (All-last (λ n. bytes_eq (codes "pterodactyl") n ≡ false) refl))
          (Distinct-block ps.systemd systemd after_systemd
            (All-last (λ n. bytes_eq (codes "systemd") n ≡ false) refl)
            (subst (λ qs. Distinct (names_of qs)) (append-nil after_systemd)
              (Distinct-block ps.pm2 pm2 [] tt tt))))

  All-names :
      (P : Bytes → Type 0) (qs : List ServiceProvider)
      → All P (names_of qs)
      → All (λ q. P q.name) qs
  All-names P [] h = tt
  All-names P (q ∷ qs) (h, hs) = (h, All-names P qs hs)

  AddsAll-real_ones : AddsAll new_registry (real_ones ps l)
  unfolding new_registry lookup contains_byte
  AddsAll-real_ones =
      add-AddsAll new_registry (real_ones ps l) new_registry-IsValid
        (All-names IsName (real_ones ps l)
          (All-real_ones IsName (refl, refl) (refl, refl) (refl, refl) (refl, refl)))
        Distinct-real_ones
        (All-names (λ n. lookup n new_registry.by_name ≡ none) (real_ones ps l)
          (All-real_ones (λ n. lookup n new_registry.by_name ≡ none) refl refl refl refl))

-- Outside of mock mode, where each provider that the configuration has gives distinct local ids:
-- `serve` does not panic; it goes on, up to an error of the audit log, with a registry that holds
-- just these providers in their order, in which each name finds its provider, and of which no two
-- units that it lists have the same id.
pub serve-IsValid :
    (n : Net) (c : Config) (l : Listings) (mocks : List ServiceProvider)
    (audit_error : Option Bytes) (lower : Bytes → Bytes)
    → c.mock ≡ false
    → All LocallyDistinct (real_ones c.providers l)
    → (r : Registry) × ((serve n (with_config c) l mocks audit_error).1
        ≡ opened_audit r audit_error)
      × (r.list ≡ real_ones c.providers l)
      × IsValid r
      × Distinct (ids (list_all lower r).0)
unfolding serve configured new_registry
serve-IsValid n c l mocks audit_error lower real locals =
    let (r, same, valid, list) = AddsAll-real_ones c.providers l in
    (
      r,
      ap
            (λ b.
              built (add_all new_registry (if b then mocks else real_ones c.providers l))
                audit_error)
            real
          ∙ ap (λ o. built o audit_error) same,
      list,
      valid,
      Distinct-list_all lower r valid (subst (All LocallyDistinct) (sym list) locals),
    )
