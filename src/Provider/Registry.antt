-- ===== src/Provider/Registry.antt =====
-- agent/internal/provider/registry.go: the providers, and unit ids that say which one a unit is of.
-- A provider is its name and what it answers to `List` in the call at hand; that `ListAll` asks all
-- of them at once does not show, as it waits for all answers. `strings.ToLower` is a parameter, and
-- `sort.SliceStable` is the stable sort by insertion.
pub mod Ids
pub mod Routing
mod Tests
use pc_monitor.Base.{
  ℕ, Bool, true, false, not, List, [], ◌∷◌, ◌++◌, Option, none, some, Bytes, cut, contains_byte,
  lookup, insert, map, ltb, ◌==◌, ◌||◌, if◌then◌else◌, is_some,
}
use pc_monitor.Provider.{ProviderUnit, health_none, valid_action}

pub data Listing : Type 0 where
  listed : List ProviderUnit → Listing
  list_failed : Bytes → Listing

pub record ServiceProvider : Type 0 where
  pub name : Bytes
  pub listing : Listing

pub record Registry : Type 0 where
  pub list : List ServiceProvider
  pub by_name : List (Bytes × ServiceProvider)

unfoldable pub new_registry : Registry
new_registry = record { list = []; by_name = [] }

pub data AddError : Type 0 where
  invalid_name registered_twice : Bytes → AddError

pub data Added : Type 0 where
  added : Registry → Added
  refused : AddError → Added

abbrev pub is_blank : Bytes → Bool
is_blank [] = true
is_blank (c ∷ s) = false

unfoldable pub add : Registry → ServiceProvider → Added
add r p =
    if is_blank p.name || contains_byte b':' p.name
    then refused (invalid_name p.name)
    else if is_some (lookup p.name r.by_name)
    then refused (registered_twice p.name)
    else added (record { list = r.list ++ (p ∷ []); by_name = insert p.name p r.by_name })

unfoldable pub resolve_local : Registry → Bytes → Bytes → Option (ServiceProvider × Bytes)
resolve_local r name [] = none
resolve_local r name (c ∷ local) = elim (lookup name r.by_name) [
  | none ↦ none
  | some p ↦ some (p, c ∷ local)
]

-- `none` is `ErrUnknownUnit`.
unfoldable pub resolve : Registry → Bytes → Option (ServiceProvider × Bytes)
resolve r id = elim (cut b':' id) [ none ↦ none | some (name, local) ↦ resolve_local r name local ]

-- `<` on strings
unfoldable pub bytes_less : Bytes → Bytes → Bool
bytes_less _ [] = false
bytes_less [] (y ∷ ys) = true
bytes_less (x ∷ xs) (y ∷ ys) = if ltb x y then true else if x == y then bytes_less xs ys else false

-- A unit that stood before the others goes before those that are not less than it.
unfoldable pub place : (Bytes → Bytes) → ProviderUnit → List ProviderUnit → List ProviderUnit
place lower u [] = u ∷ []
place lower u (v ∷ vs) =
    if bytes_less (lower v.name) (lower u.name) then v ∷ place lower u vs else u ∷ v ∷ vs

unfoldable pub sort_units : (Bytes → Bytes) → List ProviderUnit → List ProviderUnit
sort_units lower [] = []
sort_units lower (u ∷ us) = place lower u (sort_units lower us)

abbrev pub or_empty : Option (List Bytes) → List Bytes
or_empty none = []
or_empty (some xs) = xs

-- What `ListAll` writes into a unit of a provider.
unfoldable pub tag : Bytes → ProviderUnit → ProviderUnit
tag name u = record u {
  id = name ++ b':' ∷ u.id;
  provider = name;
  health = if is_blank u.health then health_none else u.health;
  actions = some (or_empty u.actions);
}

-- One round of the second loop of `ListAll`: the units so far, and the errors by provider.
unfoldable pub gather :
    (Bytes → Bytes)
    → Bytes
    → Listing
    → List ProviderUnit
    → List (Bytes × Bytes)
    → List ProviderUnit × List (Bytes × Bytes)
gather lower name (list_failed e) all errs = (all, insert name e errs)
gather lower name (listed us) all errs = (all ++ map (tag name) (sort_units lower us), errs)

unfoldable pub collect :
    (Bytes → Bytes)
    → List ServiceProvider
    → List ProviderUnit
    → List (Bytes × Bytes)
    → List ProviderUnit × List (Bytes × Bytes)
collect lower [] all errs = (all, errs)
collect lower (p ∷ ps) all errs =
    let (all', errs') = gather lower p.name p.listing all errs in collect lower ps all' errs'

unfoldable pub list_all : (Bytes → Bytes) → Registry → List ProviderUnit × List (Bytes × Bytes)
list_all lower r = collect lower r.list [] []

-- What becomes of `Do`: the two errors, or the call of a provider's own `Do`.
pub data DoResult : Type 0 where
  bad_action unknown_unit : DoResult
  passed_on : ServiceProvider → Bytes → DoResult

unfoldable pub do_action : Registry → Bytes → Bytes → DoResult
do_action r id action =
    if not (valid_action action)
    then bad_action
    else elim (resolve r id) [ none ↦ unknown_unit | some (p, local) ↦ passed_on p local ]
