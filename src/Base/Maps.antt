-- ===== src/Base/Maps.antt =====
-- Go maps with string keys, as association lists.
use mathlib.Core.Path.{◌≡◌, refl, subst, ◌∙◌}
use mathlib.Core.Logic.{inl, inr}
use mathlib.Core.Bool.{Bool, false}
use mathlib.Core.Option.{Option, none, some}
use mathlib.Core.List.{List, [], ◌∷◌}
use native.Mathlib.Omega.{arith}
use pc_monitor.Base.Tests.{if◌then◌else◌, Bool-cases}
use pc_monitor.Base.Lists.{All, keep_if}
use pc_monitor.Base.Text.{Bytes, bytes_eq, bytes_eq_iff, bytes_eq_sym}

module _ {ℓ} {V : Type ℓ} where
  unfoldable pub lookup : Bytes → List (Bytes × V) → Option V
  lookup k [] = none
  lookup k ((j, v) ∷ m) = if bytes_eq j k then some v else lookup k m

  -- `m[k] = v`
  unfoldable pub insert : Bytes → V → List (Bytes × V) → List (Bytes × V)
  insert k v [] = (k, v) ∷ []
  insert k v ((j, w) ∷ m) = if bytes_eq j k then (k, v) ∷ m else (j, w) ∷ insert k v m

  -- `delete(m, k)`
  unfoldable pub delete : Bytes → List (Bytes × V) → List (Bytes × V)
  delete k [] = []
  delete k ((j, w) ∷ m) = if bytes_eq j k then delete k m else (j, w) ∷ delete k m

  pub lookup-insert :
      (k j : Bytes) (v : V) (m : List (Bytes × V))
      → lookup j (insert k v m) ≡ (if bytes_eq k j then some v else lookup j m)
  unfolding lookup insert
  lookup-insert k j v [] = refl
  lookup-insert k j v ((i, w) ∷ m) =
      ground (arith, bytes_eq_iff k j, bytes_eq_iff i k, bytes_eq_iff i j, lookup-insert k j v m)

  pub lookup-delete :
      (k j : Bytes) (m : List (Bytes × V))
      → lookup j (delete k m) ≡ (if bytes_eq k j then none else lookup j m)
  unfolding lookup delete
  lookup-delete k j [] = ground arith
  lookup-delete k j ((i, w) ∷ m) =
      ground (arith, bytes_eq_iff k j, bytes_eq_iff i k, bytes_eq_iff i j, lookup-delete k j m)

-- No key occurs twice, as in every Go map.
abbrev pub UniqueKeys {ℓ} : {V : Type ℓ} → List (Bytes × V) → Type 0
UniqueKeys [] = Unit {0}
UniqueKeys ((k, v) ∷ m) = All (λ e. bytes_eq e.0 k ≡ false) m × UniqueKeys m

module _ {ℓ} {V : Type ℓ} where
  pub All-insert :
      (P : Bytes → Type 0) (k : Bytes) (v : V) (m : List (Bytes × V))
      → P k
      → All (λ e. P e.0) m
      → All (λ e. P e.0) (insert k v m)
  unfolding insert
  All-insert P k v [] p h = (p, h)
  All-insert P k v ((j, w) ∷ m) p h = elim (Bool-cases (bytes_eq j k)) [
    | inl e ↦ rw e (p, h.1)
    | inr e ↦ rw e (h.0, All-insert P k v m p h.1)
  ]

  All-delete :
      (P : Bytes → Type 0) (k : Bytes) (m : List (Bytes × V))
      → All (λ e. P e.0) m
      → All (λ e. P e.0) (delete k m)
  unfolding delete
  All-delete P k [] h = h
  All-delete P k ((j, w) ∷ m) h = elim (Bool-cases (bytes_eq j k)) [
    | inl e ↦ rw e (All-delete P k m h.1)
    | inr e ↦ rw e (h.0, All-delete P k m h.1)
  ]

  pub insert-UniqueKeys :
      (k : Bytes) (v : V) (m : List (Bytes × V)) → UniqueKeys m → UniqueKeys (insert k v m)
  unfolding insert
  insert-UniqueKeys k v [] h = (tt, tt)
  insert-UniqueKeys k v ((j, w) ∷ m) h = elim (Bool-cases (bytes_eq j k)) [
    | inl e ↦
        rw e (subst (λ i. All (λ x. bytes_eq x.0 i ≡ false) m) ((bytes_eq_iff j k).0 e) h.0, h.1)
    | inr e ↦ rw e (
      All-insert (λ i. bytes_eq i j ≡ false) k v m (bytes_eq_sym k j ∙ e) h.0,
      insert-UniqueKeys k v m h.1,
    )
  ]

  pub delete-UniqueKeys :
      (k : Bytes) (m : List (Bytes × V)) → UniqueKeys m → UniqueKeys (delete k m)
  unfolding delete
  delete-UniqueKeys k [] h = h
  delete-UniqueKeys k ((j, w) ∷ m) h = elim (Bool-cases (bytes_eq j k)) [
    | inl e ↦ rw e (delete-UniqueKeys k m h.1)
    | inr e ↦ rw e (All-delete (λ i. bytes_eq i j ≡ false) k m h.0, delete-UniqueKeys k m h.1)
  ]

  lookup-absent :
      (k : Bytes) (m : List (Bytes × V)) → All (λ e. bytes_eq e.0 k ≡ false) m → lookup k m ≡ none
  unfolding lookup
  lookup-absent k [] h = refl
  lookup-absent k ((j, w) ∷ m) h = rw h.0 (lookup-absent k m h.1)

  unfoldable pub filter_value : (V → Bool) → Option V → Option V
  filter_value p none = none
  filter_value p (some v) = if p v then some v else none

  All-keep_if :
      (P : Bytes → Type 0) (p : V → Bool) (m : List (Bytes × V))
      → All (λ e. P e.0) m
      → All (λ e. P e.0) (keep_if (λ e. p e.1) m)
  unfolding keep_if
  All-keep_if P p [] h = h
  All-keep_if P p ((j, w) ∷ m) h = elim (Bool-cases (p w)) [
    | inl e ↦ rw e (h.0, All-keep_if P p m h.1)
    | inr e ↦ rw e (All-keep_if P p m h.1)
  ]

  -- Keeping the entries whose values pass a test.
  pub lookup-keep_if :
      (k : Bytes) (p : V → Bool) (m : List (Bytes × V))
      → UniqueKeys m
      → lookup k (keep_if (λ e. p e.1) m) ≡ filter_value p (lookup k m)
  unfolding lookup keep_if filter_value
  lookup-keep_if k p [] h = refl
  lookup-keep_if k p ((j, w) ∷ m) h = elim (Bool-cases (bytes_eq j k)) [
    | inl e ↦ ground (
      arith,
      e,
      lookup-absent k (keep_if (λ e. p e.1) m) (
          All-keep_if (λ i. bytes_eq i k ≡ false) p m
            (subst (λ i. All (λ x. bytes_eq x.0 i ≡ false) m) ((bytes_eq_iff j k).0 e) h.0)),
    )
    | inr e ↦ ground (arith, e, lookup-keep_if k p m h.1)
  ]
