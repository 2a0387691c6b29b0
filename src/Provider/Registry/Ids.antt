-- ===== src/Provider/Registry/Ids.antt =====
-- The ids that `ListAll` gives out.
use pc_monitor.Base.{
  false, List, [], ◌∷◌, ◌++◌, append_assoc, append-nil, Option, some, Bytes, bytes_eq, bytes_eq_iff,
  bytes_eq_ne, bytes_eq_sym, cut, cut-append, contains_byte, lookup, map, map-append, All,
  All-append, Bool-cases, ◌≡◌, refl, sym, ap, ◌∙◌, subst, inl, inr, arith,
}
use pc_monitor.Provider.{ProviderUnit}
use pc_monitor.Provider.Registry.{
  Listing, listed, list_failed, ServiceProvider, Registry, bytes_less, place, sort_units, tag,
  gather, collect, list_all,
}
use pc_monitor.Provider.Registry.Routing.{Distinct, Distinct-append, IsValid}

abbrev pub ids : List ProviderUnit → List Bytes
ids us = map (λ u. u.id) us

-- The units that a provider lists: none when it fails.
abbrev pub units_of : Listing → List ProviderUnit
units_of (listed us) = us
units_of (list_failed e) = []

abbrev tagged : (Bytes → Bytes) → ServiceProvider → List ProviderUnit
tagged lower p = map (tag p.name) (sort_units lower (units_of p.listing))

abbrev all_tagged : (Bytes → Bytes) → List ServiceProvider → List ProviderUnit
all_tagged lower [] = []
all_tagged lower (p ∷ ps) = tagged lower p ++ all_tagged lower ps

gather_units :
    (lower : Bytes → Bytes) (p : ServiceProvider) (all : List ProviderUnit)
    (errs : List (Bytes × Bytes))
    → (gather lower p.name p.listing all errs).0 ≡ all ++ tagged lower p
unfolding gather sort_units
gather_units lower p all errs = gather_listing p.name p.listing
  where
    gather_listing :
        (n : Bytes) (l : Listing)
        → (gather lower n l all errs).0 ≡ all ++ map (tag n) (sort_units lower (units_of l))
    gather_listing n (listed us) = refl
    gather_listing n (list_failed e) = sym (append-nil all)

collect_units :
    (lower : Bytes → Bytes) (ps : List ServiceProvider) (all : List ProviderUnit)
    (errs : List (Bytes × Bytes))
    → (collect lower ps all errs).0 ≡ all ++ all_tagged lower ps
unfolding collect
collect_units lower [] all errs = sym (append-nil all)
collect_units lower (p ∷ ps) all errs =
    collect_units lower ps (gather lower p.name p.listing all errs).0
      (gather lower p.name p.listing all errs).1
    ∙ ap (λ us. us ++ all_tagged lower ps) (gather_units lower p all errs)
    ∙ append_assoc all (tagged lower p) (all_tagged lower ps)

-- A property of ids, and distinctness, do not depend on the order of units.
All-place :
    (P : Bytes → Type 0) (lower : Bytes → Bytes) (u : ProviderUnit) (us : List ProviderUnit)
    → P u.id
    → All P (ids us)
    → All P (ids (place lower u us))
unfolding place
All-place P lower u [] h hs = (h, tt)
All-place P lower u (v ∷ vs) h (hv, hs) =
    elim (Bool-cases (bytes_less (lower v.name) (lower u.name))) [
      | inl e ↦ rw e (hv, All-place P lower u vs h hs)
      | inr e ↦ rw e (h, (hv, hs))
    ]

All-sort_units :
    (P : Bytes → Type 0) (lower : Bytes → Bytes) (us : List ProviderUnit)
    → All P (ids us)
    → All P (ids (sort_units lower us))
unfolding sort_units
All-sort_units P lower [] h = tt
All-sort_units P lower (u ∷ us) (h, hs) =
    All-place P lower u (sort_units lower us) h (All-sort_units P lower us hs)

Distinct-place :
    (lower : Bytes → Bytes) (u : ProviderUnit) (us : List ProviderUnit)
    → All (λ y. bytes_eq u.id y ≡ false) (ids us)
    → Distinct (ids us)
    → Distinct (ids (place lower u us))
unfolding place
Distinct-place lower u [] h d = (tt, tt)
Distinct-place lower u (v ∷ vs) (hv, h) (dv, d) =
    elim (Bool-cases (bytes_less (lower v.name) (lower u.name))) [
      | inl e ↦ rw e (
        All-place (λ y. bytes_eq v.id y ≡ false) lower u vs (bytes_eq_sym v.id u.id ∙ hv) dv,
        Distinct-place lower u vs h d,
      )
      | inr e ↦ rw e ((hv, h), (dv, d))
    ]

Distinct-sort_units :
    (lower : Bytes → Bytes) (us : List ProviderUnit)
    → Distinct (ids us)
    → Distinct (ids (sort_units lower us))
unfolding sort_units
Distinct-sort_units lower [] d = tt
Distinct-sort_units lower (u ∷ us) (h, d) =
    Distinct-place lower u (sort_units lower us)
      (All-sort_units (λ y. bytes_eq u.id y ≡ false) lower us h) (Distinct-sort_units lower us d)

-- Ids of two names are equal only if names and local ids are.
module _ (m n : Bytes) (plain_m : contains_byte b':' m ≡ false)
    (plain_n : contains_byte b':' n ≡ false) where
  full_id-injective : (a b : Bytes) → m ++ b':' ∷ a ≡ n ++ b':' ∷ b → (m ≡ n) × (a ≡ b)
  full_id-injective a b h =
      let same : ◌≡◌ {A = Option (Bytes × Bytes)} (some (m, a)) (some (n, b)) =
        sym (cut-append b':' m a plain_m) ∙ ap (cut b':') h ∙ cut-append b':' n b plain_n in
      (cc, cc)

  full_id-ne_name :
      (a b : Bytes) → bytes_eq m n ≡ false → bytes_eq (m ++ b':' ∷ a) (n ++ b':' ∷ b) ≡ false
  full_id-ne_name a b h =
      bytes_eq_ne _ _
        (λ e. absurd (ground (arith, h, (bytes_eq_iff m n).1 (full_id-injective a b e).0)))

  full_id-ne_local :
      (a b : Bytes) → bytes_eq a b ≡ false → bytes_eq (m ++ b':' ∷ a) (n ++ b':' ∷ b) ≡ false
  full_id-ne_local a b h =
      bytes_eq_ne _ _
        (λ e. absurd (ground (arith, h, (bytes_eq_iff a b).1 (full_id-injective a b e).1)))

All-tag_other :
    (m n a : Bytes) (us : List ProviderUnit)
    → contains_byte b':' m ≡ false
    → contains_byte b':' n ≡ false
    → bytes_eq m n ≡ false
    → All (λ y. bytes_eq (m ++ b':' ∷ a) y ≡ false) (ids (map (tag n) us))
unfolding tag
All-tag_other m n a [] pm pn h = tt
All-tag_other m n a (u ∷ us) pm pn h =
    (full_id-ne_name m n pm pn a u.id h, All-tag_other m n a us pm pn h)

All-tag_same :
    (n a : Bytes) (us : List ProviderUnit)
    → contains_byte b':' n ≡ false
    → All (λ y. bytes_eq a y ≡ false) (ids us)
    → All (λ y. bytes_eq (n ++ b':' ∷ a) y ≡ false) (ids (map (tag n) us))
unfolding tag
All-tag_same n a [] pn h = tt
All-tag_same n a (u ∷ us) pn (h, hs) =
    (full_id-ne_local n n pn pn a u.id h, All-tag_same n a us pn hs)

Distinct-tag :
    (n : Bytes) (us : List ProviderUnit)
    → contains_byte b':' n ≡ false
    → Distinct (ids us)
    → Distinct (ids (map (tag n) us))
unfolding tag
Distinct-tag n [] pn d = tt
Distinct-tag n (u ∷ us) pn (h, d) = (All-tag_same n u.id us pn h, Distinct-tag n us pn d)

abbrev Plain : ServiceProvider → Type 0
Plain p = contains_byte b':' p.name ≡ false

-- The local ids that a provider gives are distinct.
abbrev pub LocallyDistinct : ServiceProvider → Type 0
LocallyDistinct p = Distinct (ids (units_of p.listing))

All-all_tagged :
    (lower : Bytes → Bytes) (m a : Bytes) (ps : List ServiceProvider)
    → contains_byte b':' m ≡ false
    → All Plain ps
    → All (λ n. bytes_eq m n ≡ false) (map (λ p. p.name) ps)
    → All (λ y. bytes_eq (m ++ b':' ∷ a) y ≡ false) (ids (all_tagged lower ps))
All-all_tagged lower m a [] pm plain other = tt
All-all_tagged lower m a (p ∷ ps) pm (plain, more) (other, others) =
    subst (All (λ y. bytes_eq (m ++ b':' ∷ a) y ≡ false))
      (sym (map-append (λ u. u.id) (tagged lower p) (all_tagged lower ps)))
      (All-append (λ y. bytes_eq (m ++ b':' ∷ a) y ≡ false) (ids (tagged lower p)) _
        (All-tag_other m p.name a (sort_units lower (units_of p.listing)) pm plain other)
        (All-all_tagged lower m a ps pm more others))

module _ (lower : Bytes → Bytes) (n : Bytes) (ps : List ServiceProvider)
    (plain : contains_byte b':' n ≡ false) (plains : All Plain ps)
    (others : All (λ k. bytes_eq n k ≡ false) (map (λ p. p.name) ps)) where
  All-tagged_apart :
      (us : List ProviderUnit)
      → All
          (λ x. All (λ y. bytes_eq x y ≡ false) (ids (all_tagged lower ps)))
          (ids (map (tag n) us))
  unfolding tag
  All-tagged_apart [] = tt
  All-tagged_apart (u ∷ us) =
      (All-all_tagged lower n u.id ps plain plains others, All-tagged_apart us)

Distinct-all_tagged :
    (lower : Bytes → Bytes) (ps : List ServiceProvider)
    → All Plain ps
    → Distinct (map (λ p. p.name) ps)
    → All LocallyDistinct ps
    → Distinct (ids (all_tagged lower ps))
Distinct-all_tagged lower [] plain names locals = tt
Distinct-all_tagged lower (p ∷ ps) (plain, plains) (name, names) (here, locals) =
    subst Distinct (sym (map-append (λ u. u.id) (tagged lower p) (all_tagged lower ps))) (
      Distinct-append (ids (tagged lower p)) (ids (all_tagged lower ps))
        (Distinct-tag p.name (sort_units lower (units_of p.listing)) plain
          (Distinct-sort_units lower (units_of p.listing) here))
        (Distinct-all_tagged lower ps plains names locals)
        (All-tagged_apart lower p.name ps plain plains name
          (sort_units lower (units_of p.listing))))

found-Plain :
    (r : Registry) (ps : List ServiceProvider)
    → IsValid r
    → All (λ p. lookup p.name r.by_name ≡ some p) ps
    → All Plain ps
found-Plain r [] v h = tt
found-Plain r (p ∷ ps) v (h, hs) = ((v.known p.name p h).1, found-Plain r ps v hs)

-- In a valid registry, where each provider lists distinct local ids, all the ids that `ListAll`
-- gives out are distinct, across providers too.
pub Distinct-list_all :
    (lower : Bytes → Bytes) (r : Registry)
    → IsValid r
    → All LocallyDistinct r.list
    → Distinct (ids (list_all lower r).0)
unfolding list_all
Distinct-list_all lower r v locals =
    subst (λ us. Distinct (ids us)) (sym (collect_units lower r.list [] []))
      (Distinct-all_tagged lower r.list (found-Plain r r.list v v.found) v.distinct locals)
