-- ===== src/Api/Subs/Streams.antt =====
-- The streams that are live are those that the client's map knows.
use pc_monitor.Base.{
  ℕ, suc, ◌≤◌, ◌<◌, Bool, false, not, List, [], ◌∷◌, none, some, Bytes, bytes_eq, bytes_eq_iff,
  bytes_eq_sym, lookup, insert, delete, keep_if, length, ◌==◌, All, UniqueKeys, lookup-insert,
  lookup-delete, Bool-cases, Option-cases, inl, inr, ◌≡◌, sym, ap, ◌∙◌, arith,
}
use pc_monitor.Api.Subs.{max_log_subs, Subs, stop, unsubscribe}

-- Every stream is the one that a map of subscriptions has for its unit.
abbrev pub Known : List (Bytes × ℕ) → List (Bytes × ℕ) → Type 0
Known m live = All (λ e. lookup e.0 m ≡ some e.1) live

pub length-delete_le : (k : Bytes) (m : List (Bytes × ℕ)) → length (delete k m) ≤ length m
unfolding delete
length-delete_le k [] = omega arith
length-delete_le k ((j, v) ∷ m) = elim (Bool-cases (bytes_eq j k)) [
  | inl e ↦ rw e (omega (arith, length-delete_le k m))
  | inr e ↦ rw e (omega (arith, length-delete_le k m))
]

length-delete_lt :
    (k : Bytes) (m : List (Bytes × ℕ)) {n : ℕ}
    → lookup k m ≡ some n
    → length (delete k m) < length m
unfolding delete lookup
length-delete_lt k [] h = absurd (ground arith)
length-delete_lt k ((j, v) ∷ m) h = elim (Bool-cases (bytes_eq j k)) [
  | inl e ↦ rw e (omega (arith, length-delete_le k m))
  | inr e ↦ rw e (omega (arith, length-delete_lt k m (rw e at h)))
]

pub length-insert_le :
    (k : Bytes) (v : ℕ) (m : List (Bytes × ℕ)) → length (insert k v m) ≤ suc (length m)
unfolding insert
length-insert_le k v [] = omega arith
length-insert_le k v ((j, w) ∷ m) = elim (Bool-cases (bytes_eq j k)) [
  | inl e ↦ rw e (omega arith)
  | inr e ↦ rw e (omega (arith, length-insert_le k v m))
]

-- Streams of other units are still known where an entry is deleted.
pub Known-delete :
    (k : Bytes) (m live : List (Bytes × ℕ))
    → All (λ e. bytes_eq e.0 k ≡ false) live
    → Known m live
    → Known (delete k m) live
Known-delete k m [] ne h = tt
Known-delete k m ((j, v) ∷ live) (e, ne) (at, h) =
    (rw (lookup-delete k j m, bytes_eq_sym k j, e) at, Known-delete k m live ne h)

pub Known-insert :
    (k : Bytes) (n : ℕ) (m live : List (Bytes × ℕ))
    → All (λ e. bytes_eq e.0 k ≡ false) live
    → Known m live
    → Known (insert k n m) live
Known-insert k n m [] ne h = tt
Known-insert k n m ((j, v) ∷ live) (e, ne) (at, h) =
    (rw (lookup-insert k j n m, bytes_eq_sym k j, e) at, Known-insert k n m live ne h)

-- There are no more streams than entries.
pub length-live_le :
    (m live : List (Bytes × ℕ)) → UniqueKeys live → Known m live → length live ≤ length m
length-live_le m [] un h = omega arith
length-live_le m ((k, n) ∷ live) (ne, un) (at, h) = omega (
  arith,
  length-delete_lt k m at,
  length-live_le (delete k m) live un (Known-delete k m live ne h),
)

All-keep_if :
    (P : Bytes × ℕ → Type 0) (p : Bytes × ℕ → Bool) (es : List (Bytes × ℕ))
    → All P es
    → All P (keep_if p es)
unfolding keep_if
All-keep_if P p [] h = tt
All-keep_if P p (x ∷ es) h = elim (Bool-cases (p x)) [
  | inl e ↦ rw e (h.0, All-keep_if P p es h.1)
  | inr e ↦ rw e (All-keep_if P p es h.1)
]

UniqueKeys-keep_if :
    (p : Bytes × ℕ → Bool) (es : List (Bytes × ℕ)) → UniqueKeys es → UniqueKeys (keep_if p es)
unfolding keep_if
UniqueKeys-keep_if p [] h = tt
UniqueKeys-keep_if p ((k, n) ∷ es) h = elim (Bool-cases (p (k, n))) [
  | inl e ↦ rw e (All-keep_if (λ x. bytes_eq x.0 k ≡ false) p es h.0, UniqueKeys-keep_if p es h.1)
  | inr e ↦ rw e (UniqueKeys-keep_if p es h.1)
]

-- The map keeps at most four entries, each live stream is the one it has for its unit, and no unit
-- has two.
pub record IsValid (s : Subs) : Type 0 where
  pub few : length s.subs ≤ max_log_subs
  pub one_each : UniqueKeys s.live
  pub known : Known s.subs s.live

pub stop-IsValid : (n : ℕ) (s : Subs) → IsValid s → IsValid (stop n s)
unfolding stop
stop-IsValid n s h = record {
  few = h.few;
  one_each = UniqueKeys-keep_if (λ e. not (e.1 == n)) s.live h.one_each;
  known = All-keep_if (λ e. lookup e.0 s.subs ≡ some e.1) (λ e. not (e.1 == n)) s.live h.known;
}

-- After its stop no stream of the unit is left.
no_unit-stopped :
    (unit : Bytes) (n : ℕ) (m live : List (Bytes × ℕ))
    → lookup unit m ≡ some n
    → Known m live
    → All (λ e. bytes_eq e.0 unit ≡ false) (keep_if (λ e. not (e.1 == n)) live)
unfolding keep_if
no_unit-stopped unit n m [] at h = tt
no_unit-stopped unit n m ((k, j) ∷ live) at (hk, h) = elim (Bool-cases (j == n)) [
  | inl e ↦ rw e (no_unit-stopped unit n m live at h)
  | inr e ↦ rw e (
    elim (Bool-cases (bytes_eq k unit)) [
      | inr ne ↦ ne
      | inl is ↦
          let same : some j ≡ some n =
            sym hk ∙ ap (λ i. lookup i m) ((bytes_eq_iff k unit).0 is) ∙ at in
          absurd (ground (arith, e, same))
    ],
    no_unit-stopped unit n m live at h,
  )
]

no_unit-absent :
    (unit : Bytes) (m live : List (Bytes × ℕ))
    → lookup unit m ≡ none
    → Known m live
    → All (λ e. bytes_eq e.0 unit ≡ false) live
no_unit-absent unit m [] at h = tt
no_unit-absent unit m ((k, j) ∷ live) at (hk, h) = (
  elim (Bool-cases (bytes_eq k unit)) [
    | inr ne ↦ ne
    | inl is ↦
        let same : some j ≡ none =
          sym hk ∙ ap (λ i. lookup i m) ((bytes_eq_iff k unit).0 is) ∙ at in
        absurd (ground (arith, same))
  ],
  no_unit-absent unit m live at h,
)

-- A valid state without a stream of the unit.
pub record Freed (unit : Bytes) (s : Subs) : Type 0 where
  pub valid : IsValid s
  pub free : All (λ e. bytes_eq e.0 unit ≡ false) s.live

pub unsubscribe-Freed : (unit : Bytes) (s : Subs) → IsValid s → Freed unit (unsubscribe unit s)
unfolding unsubscribe stop
unsubscribe-Freed unit s h = elim (Option-cases (lookup unit s.subs)) [
  | inl e ↦ rw e (record { valid = h; free = no_unit-absent unit s.subs s.live e h.known })
  | inr (n, e) ↦ rw e (
      let gone = no_unit-stopped unit n s.subs s.live e h.known in
      record {
        valid = record {
          few = omega (arith, length-delete_le unit s.subs, h.few);
          one_each = UniqueKeys-keep_if (λ e. not (e.1 == n)) s.live h.one_each;
          known = Known-delete unit s.subs _ gone (stop-IsValid n s h).known;
        };
        free = gone;
      })
]
