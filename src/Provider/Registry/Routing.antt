-- ===== src/Provider/Registry/Routing.antt =====
-- A registry built by `Add`, and where `Resolve` and `Do` lead in it.
use pc_monitor.Base.{
  true, false, List, [], ◌∷◌, ◌++◌, none, some, Bytes, bytes_eq, bytes_eq_iff, bytes_eq_refl, cut,
  cut-append, cut-eq-some, contains_byte, lookup, lookup-insert, insert, map, map-append, All,
  All-append, Bool-cases, Option-cases, ◌≡◌, ◌≢◌, ◌↔◌, refl, sym, ap, ◌∙◌, subst, inl, inr, arith,
}
use pc_monitor.Provider.{valid_action}
use pc_monitor.Provider.Registry.{
  ServiceProvider, Registry, new_registry, added, is_blank, add, resolve_local, resolve, passed_on,
  do_action,
}

-- No two of them are the same.
abbrev pub Distinct : List Bytes → Type 0
Distinct [] = Unit {0}
Distinct (x ∷ xs) = All (λ y. bytes_eq x y ≡ false) xs × Distinct xs

pub Distinct-append :
    (xs ys : List Bytes)
    → Distinct xs
    → Distinct ys
    → All (λ x. All (λ y. bytes_eq x y ≡ false) ys) xs
    → Distinct (xs ++ ys)
Distinct-append [] ys _ d _ = d
Distinct-append (x ∷ xs) ys (near, e) d (far, more) =
    (All-append (λ y. bytes_eq x y ≡ false) xs ys near far, Distinct-append xs ys e d more)

-- The names are distinct and without a colon, and each finds its provider and no other.
pub record IsValid (r : Registry) : Type 0 where
  pub known :
      (n : Bytes) (p : ServiceProvider)
      → lookup n r.by_name ≡ some p
      → (p.name ≡ n) × (contains_byte b':' n ≡ false)
  pub found : All (λ p. lookup p.name r.by_name ≡ some p) r.list
  pub distinct : Distinct (map (λ p. p.name) r.list)

pub new_registry-IsValid : IsValid new_registry
unfolding new_registry lookup
new_registry-IsValid = record { known = λ n p h. cc; found = tt; distinct = tt }

found_still :
    (k : Bytes) (p : ServiceProvider) (m : List (Bytes × ServiceProvider))
    (ps : List ServiceProvider)
    → lookup k m ≡ none
    → All (λ q. lookup q.name m ≡ some q) ps
    → All (λ q. lookup q.name (insert k p m) ≡ some q) ps
found_still k p m [] new h = tt
found_still k p m (q ∷ ps) new (h, more) = (
  elim (Bool-cases (bytes_eq k q.name)) [
    | inl e ↦ absurd (ground (arith, new, h, ap (λ j. lookup j m) ((bytes_eq_iff k q.name).0 e)))
    | inr e ↦ lookup-insert k q.name p m ∙ rw e h
  ],
  found_still k p m ps new more,
)

names_new :
    (k : Bytes) (m : List (Bytes × ServiceProvider)) (ps : List ServiceProvider)
    → lookup k m ≡ none
    → All (λ q. lookup q.name m ≡ some q) ps
    → All (λ x. All (λ y. bytes_eq x y ≡ false) (k ∷ [])) (map (λ q. q.name) ps)
names_new k m [] new h = tt
names_new k m (q ∷ ps) new (h, more) = (
  (
    elim (Bool-cases (bytes_eq q.name k)) [
      | inl e ↦ absurd (ground (arith, new, h, ap (λ j. lookup j m) ((bytes_eq_iff q.name k).0 e)))
      | inr e ↦ e
    ],
    tt,
  ),
  names_new k m ps new more,
)

added-IsValid :
    (r : Registry) (p : ServiceProvider)
    → IsValid r
    → contains_byte b':' p.name ≡ false
    → lookup p.name r.by_name ≡ none
    → IsValid (record { list = r.list ++ (p ∷ []); by_name = insert p.name p r.by_name })
added-IsValid r p v plain new = record {
  known = λ n q h. elim (Bool-cases (bytes_eq p.name n)) [
    | inl e ↦
        let same : p.name ≡ n = (bytes_eq_iff p.name n).0 e in
        let hit : some p ≡ some q = sym (lookup-insert p.name n p r.by_name ∙ rw e refl) ∙ h in
        (cc, subst (λ i. contains_byte b':' i ≡ false) same plain)
    | inr e ↦ v.known n q (sym (lookup-insert p.name n p r.by_name ∙ rw e refl) ∙ h)
  ];
  found =
      All-append (λ q. lookup q.name (insert p.name p r.by_name) ≡ some q) r.list (p ∷ [])
        (found_still p.name p r.by_name r.list new v.found)
        (lookup-insert p.name p.name p r.by_name ∙ rw (bytes_eq_refl p.name) refl, tt);
  distinct = subst Distinct (sym (map-append (λ q. q.name) r.list (p ∷ []))) (
      Distinct-append (map (λ q. q.name) r.list) (p.name ∷ []) v.distinct (tt, tt)
        (names_new p.name r.by_name r.list new v.found));
}

-- Adding a provider that is accepted keeps a registry valid.
pub add-IsValid :
    (r : Registry) (p : ServiceProvider) {r' : Registry}
    → IsValid r
    → add r p ≡ added r'
    → IsValid r'
unfolding add
add-IsValid r p {r'} v h = elim (Bool-cases (is_blank p.name)) [
  | inl e ↦ absurd (ground (arith, e))
  | inr e ↦ elim (Bool-cases (contains_byte b':' p.name)) [
    | inl f ↦ absurd (ground (arith, e, f))
    | inr f ↦ elim (Option-cases (lookup p.name r.by_name)) [
      | inr (q, g) ↦ absurd (ground (arith, e, f, g))
      | inl g ↦
          let same : record { list = r.list ++ (p ∷ []); by_name = insert p.name p r.by_name }
              ≡ r' =
            ground (arith, e, f, g) in
          subst IsValid same (added-IsValid r p v f g)
    ]
  ]
]

resolve_local_sound :
    (r : Registry) (n l : Bytes) {p : ServiceProvider} {local : Bytes}
    → resolve_local r n l ≡ some (p, local)
    → (lookup n r.by_name ≡ some p) × (local ≡ l) × (local ≢ [])
unfolding resolve_local
resolve_local_sound r n [] h = absurd (ground arith)
resolve_local_sound r n (c ∷ l) h = elim (Option-cases (lookup n r.by_name)) [
  | inl e ↦ absurd (ground (arith, e))
  | inr (q, e) ↦ ground (arith, e)
]

resolve_local_complete :
    (r : Registry) (n l : Bytes) {p : ServiceProvider}
    → lookup n r.by_name ≡ some p
    → l ≢ []
    → resolve_local r n l ≡ some (p, l)
unfolding resolve_local
resolve_local_complete r n [] h some_left = absurd (some_left refl)
resolve_local_complete r n (c ∷ l) h some_left = rw (h, resolve_local) refl

resolve_of :
    (r : Registry) (id : Bytes) {n l : Bytes}
    → cut b':' id ≡ some (n, l)
    → resolve r id ≡ resolve_local r n l
unfolding resolve
resolve_of r id e = rw (e, resolve) refl

-- What it takes for an id to be that of a unit of a provider of the registry.
pub record Names (r : Registry) (p : ServiceProvider) (local id : Bytes) : Type 0 where
  pub id_is : id ≡ p.name ++ b':' ∷ local
  pub not_blank : local ≢ []
  pub registered : lookup p.name r.by_name ≡ some p

resolve-Names :
    (r : Registry) (id : Bytes) {p : ServiceProvider} {local : Bytes}
    → IsValid r
    → resolve r id ≡ some (p, local)
    → Names r p local id
resolve-Names r id {p} {local} v h = elim (Option-cases (cut b':' id)) [
  | inl e ↦ absurd (unfold resolve in ground (arith, e))
  | inr ((n, l), e) ↦
      let (reg, same, some_left) = resolve_local_sound r n l (sym (resolve_of r id e) ∙ h) in
      let (name, plain) = v.known n p reg in
      let (text, first) = cut-eq-some b':' id e in
      record {
        id_is = text ∙ ap (λ i. i ++ b':' ∷ l) (sym name) ∙ ap (λ i. p.name ++ b':' ∷ i) (sym same);
        not_blank = some_left;
        registered = ap (λ i. lookup i r.by_name) name ∙ reg;
      }
]

pub Names-resolve :
    (r : Registry) (id : Bytes) (p : ServiceProvider) (local : Bytes)
    → IsValid r
    → Names r p local id
    → resolve r id ≡ some (p, local)
Names-resolve r id p local v named =
    ap (resolve r) named.id_is
    ∙ resolve_of r (p.name ++ b':' ∷ local)
        (cut-append b':' p.name local (v.known p.name p named.registered).1)
    ∙ resolve_local_complete r p.name local named.registered named.not_blank

-- In a valid registry, `Do` reaches a provider exactly with one of the four actions and with an id
-- that is the name of that provider, a colon, and the local id it is given, which is not empty.
pub do_action_iff :
    (r : Registry) (p : ServiceProvider) (id local action : Bytes)
    → IsValid r
    → (do_action r id action ≡ passed_on p local)
      ↔ ((valid_action action ≡ true) × Names r p local id)
unfolding do_action
do_action_iff r p id local action v = (forward, back)
  where
    forward :
        do_action r id action ≡ passed_on p local
        → (valid_action action ≡ true) × Names r p local id
    forward h = elim (Bool-cases (valid_action action)) [
      | inr e ↦ absurd (ground (arith, e))
      | inl e ↦ elim (Option-cases (resolve r id)) [
        | inl f ↦ absurd (ground (arith, e, f))
        | inr (q, f) ↦ (e, resolve-Names r id v (f ∙ ground (arith, e, f)))
      ]
    ]

    back :
        (valid_action action ≡ true) × Names r p local id
        → do_action r id action ≡ passed_on p local
    back (e, named) = rw (e, Names-resolve r id p local v named) refl
