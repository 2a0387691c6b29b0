-- ===== src/Pm2/Processes/Unique.antt =====
-- The ids that `bind` gives out.
use pc_monitor.Base.{
  codes, ℕ, zero, suc, ◌+◌, ◌≤◌, ◌<◌, true, false, List, [], ◌∷◌, ◌++◌, map, Bytes, bytes_eq,
  bytes_eq_iff, bytes_eq_ne, bytes_eq_sym, member, length, decimal, decimal-injective, All,
  Bool-cases, ◌≡◌, refl, sym, ap, ◌∙◌, arith, inl, inr, if◌then◌else◌,
}
use pc_monitor.Base.Int.{ℤ}
use pc_monitor.Provider.Registry.{listed}
use pc_monitor.Provider.Registry.Routing.{Distinct}
use pc_monitor.Provider.Registry.Ids.{ids, LocallyDistinct}
use pc_monitor.Pm2.Clean.{Unicode}
use pc_monitor.Pm2.Processes.{
  Proc, clean_proc, count_of, next_of, repeat_id, settle_from, settle, id_of, skipped, unit_of,
  Bound, bind_from, bind,
}

append-cancel : (base a b : Bytes) → base ++ a ≡ base ++ b → a ≡ b
append-cancel [] a b h = h
append-cancel (c ∷ base) a b h = append-cancel base a b (cc)

repeat_id-injective : (base : Bytes) (m n : ℕ) → repeat_id base m ≡ repeat_id base n → m ≡ n
repeat_id-injective base m n h =
    let tails : b'~' ∷ decimal (m + 1) ≡ b'~' ∷ decimal (n + 1) = append-cancel base _ _ h in
    let digits : decimal (m + 1) ≡ decimal (n + 1) = cc in
    omega (arith, decimal-injective (m + 1) (n + 1) digits)

-- The ids that are left when one is taken out.
abbrev without : Bytes → List Bytes → List Bytes
without k [] = []
without k (x ∷ xs) = if bytes_eq x k then without k xs else x ∷ without k xs

length-without_le : (k : Bytes) (xs : List Bytes) → length (without k xs) ≤ length xs
length-without_le k [] = omega arith
length-without_le k (x ∷ xs) = elim (Bool-cases (bytes_eq x k)) [
  | inl e ↦ rw e (omega (arith, length-without_le k xs))
  | inr e ↦ rw e (omega (arith, length-without_le k xs))
]

length-without-member :
    (k : Bytes) (xs : List Bytes) → member k xs ≡ true → length (without k xs) < length xs
unfolding member
length-without-member k [] h = absurd (ground arith)
length-without-member k (x ∷ xs) h = elim (Bool-cases (bytes_eq x k)) [
  | inl e ↦ rw e (omega (arith, length-without_le k xs))
  | inr e ↦ rw e (omega (arith, length-without-member k xs (rw e at h)))
]

member-without :
    (j k : Bytes) (xs : List Bytes) → bytes_eq j k ≡ false → member j (without k xs) ≡ member j xs
unfolding member
member-without j k [] ne = refl
member-without j k (x ∷ xs) ne = elim (Bool-cases (bytes_eq x k)) [
  | inl e ↦
      let other : bytes_eq x j ≡ false =
        ap (λ y. bytes_eq y j) ((bytes_eq_iff x k).0 e) ∙ bytes_eq_sym k j ∙ ne in
      rw (e, other) (member-without j k xs ne)
  | inr e ↦ rw e (ap (λ m. if bytes_eq x j then true else m) (member-without j k xs ne))
]

-- The search looks only at later repeats.
settle_from-without :
    (fuel : ℕ) (base : Bytes) (k n : ℕ) (used : List Bytes)
    → k ≤ n
    → settle_from fuel base n (without (repeat_id base k) used) ≡ settle_from fuel base n used
unfolding settle_from
settle_from-without zero base k n used h = refl
settle_from-without (suc fuel) base k n used h =
    rw
      (
        member-without (repeat_id base (n + 1)) (repeat_id base k) used
            (bytes_eq_ne _ _ (λ e. absurd (omega (arith, repeat_id-injective base (n + 1) k e)))),
        settle_from-without fuel base k (n + 1) used (omega arith),
      )
      refl

-- The number that the search ends with is past the one that it began with.
settle_from_later :
    (fuel : ℕ) (base : Bytes) (n : ℕ) (used : List Bytes)
    → (m : ℕ) × (n < m) × (settle_from fuel base n used ≡ (repeat_id base m, m))
unfolding settle_from
settle_from_later zero base n used = (n + 1, omega arith, refl)
settle_from_later (suc fuel) base n used =
    elim (Bool-cases (member (repeat_id base (n + 1)) used)) [
      | inl e ↦
          let (m, h, same) = settle_from_later fuel base (n + 1) used in (m, omega arith, rw e same)
      | inr e ↦ (n + 1, omega arith, rw e refl)
    ]

-- With a fuel above the number of used ids the search ends at one that is not used.
settle_from-fresh :
    (fuel : ℕ) (base : Bytes) (n : ℕ) (used : List Bytes)
    → length used < fuel
    → member (settle_from fuel base n used).0 used ≡ false
settle_from-fresh zero base n used h = elim h [ ]
settle_from-fresh (suc fuel) base n used h =
    elim (Bool-cases (member (repeat_id base (n + 1)) used)) [
      | inr e ↦ unfold settle_from in rw (e, settle_from) e
      | inl e ↦
          let less = without (repeat_id base (n + 1)) used in
          let (m, later, same) = settle_from_later fuel base (n + 1) used in
          let other : bytes_eq (settle_from fuel base (n + 1) used).0 (repeat_id base (n + 1))
              ≡ false =
            ap (λ r. bytes_eq r.0 (repeat_id base (n + 1))) same
            ∙ bytes_eq_ne _ _ (λ q. absurd (omega (arith, repeat_id-injective base m (n + 1) q))) in
          ap (λ r. member r.0 used) (settle_from_used fuel base n used e)
          ∙ sym (
              member-without (settle_from fuel base (n + 1) used).0 (repeat_id base (n + 1)) used
                other)
          ∙ ap (λ r. member r.0 less)
              (sym (settle_from-without fuel base (n + 1) (n + 1) used (omega arith)))
          ∙ settle_from-fresh fuel base (n + 1) less
              (omega (arith, length-without-member (repeat_id base (n + 1)) used e))
    ]
  where
    settle_from_used :
        (f : ℕ) (b : Bytes) (i : ℕ) (us : List Bytes)
        → member (repeat_id b (i + 1)) us ≡ true
        → settle_from (suc f) b i us ≡ settle_from f b (i + 1) us
    settle_from_used f b i us e = unfold settle_from in rw (e, settle_from) refl

settle-fresh :
    (base : Bytes) (used : List Bytes) (next : List (Bytes × ℕ))
    → member (settle base used next).0 used ≡ false
unfolding settle
settle-fresh base used next = elim (Bool-cases (member base used)) [
  | inl e ↦ rw e (settle_from-fresh (suc (length used)) base (next_of base next) used (omega arith))
  | inr e ↦ rw e e
]

abbrev bound_ids : List Bound → List Bytes
bound_ids bs = ids (map (λ b. b.unit) bs)

-- Ids that are distinct, and none of those used before.
record Fresh (used : List Bytes) (new : List Bytes) : Type 0 where
  distinct : Distinct new
  apart : All (λ i. member i used ≡ false) new

member-cons :
    (i x : Bytes) (xs : List Bytes)
    → member i (x ∷ xs) ≡ false
    → (bytes_eq x i ≡ false) × (member i xs ≡ false)
unfolding member
member-cons i x xs h = ground arith

apart-cons :
    (x : Bytes) (used new : List Bytes)
    → All (λ i. member i (x ∷ used) ≡ false) new
    → All (λ i. bytes_eq x i ≡ false) new × All (λ i. member i used ≡ false) new
apart-cons x used [] h = (tt, tt)
apart-cons x used (i ∷ new) (hi, h) =
    let (ne, out) = member-cons i x used hi in
    let (nes, outs) = apart-cons x used new h in ((ne, nes), (out, outs))

Fresh-cons :
    (x : Bytes) (used new : List Bytes)
    → member x used ≡ false
    → Fresh (x ∷ used) new
    → Fresh used (x ∷ new)
Fresh-cons x used new h f =
    let (ne, out) = apart-cons x used new f.apart in
    record { distinct = (ne, f.distinct); apart = (h, out) }

bind_from-Fresh :
    (u : Unicode) (exclude : List Bytes) (now : ℤ) (all : List Proc) (used : List Bytes)
    (next : List (Bytes × ℕ)) (ps : List Proc)
    → Fresh used (bound_ids (bind_from u exclude now all used next ps))
unfolding bind_from unit_of settle
bind_from-Fresh u exclude now all used next [] = record { distinct = tt; apart = tt }
bind_from-Fresh u exclude now all used next (p ∷ ps) = elim (Bool-cases (skipped u exclude p)) [
  | inl e ↦ rw e (bind_from-Fresh u exclude now all used next ps)
  | inr e ↦
      let base = id_of p (count_of p.name all) in
      rw e (
        Fresh-cons (settle base used next).0 used _ (settle-fresh base used next) (
          bind_from-Fresh u exclude now all ((settle base used next).0 ∷ used)
            (settle base used next).1 ps))
]

-- The units that pm2's processes make have distinct ids, whatever names and numbers the processes
-- have and however often they repeat, so that the provider lists distinct local ids.
pub bind-LocallyDistinct :
    (u : Unicode) (exclude : List Bytes) (now : ℤ) (procs : List Proc)
    → LocallyDistinct (record {
      name = codes "pm2";
      listing = listed (map (λ b. b.unit) (bind u exclude now procs));
    })
unfolding bind
bind-LocallyDistinct u exclude now procs =
    (bind_from-Fresh u exclude now (map (clean_proc u) procs) [] []
      (map (clean_proc u) procs)).distinct
