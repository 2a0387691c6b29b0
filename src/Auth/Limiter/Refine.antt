-- ===== src/Auth/Limiter/Refine.antt =====
-- The limiter against the complete history of failures: pruning and deletion never change an
-- answer.
use pc_monitor.Base.{
  ℕ, ◌-◌, ◌≤◌, Bool, ◌&&◌, List, [], ◌∷◌, ◌++◌, ◌≡◌, refl, sym, ap, ap₂, ◌∙◌, Bytes, bytes_eq,
  bytes_eq_iff, bytes_eq_refl, subst, lookup, insert, delete, lookup-insert, lookup-delete, length,
  ltb, if◌then◌else◌, All, All-append, Bool-cases, inl, inr, arith,
}
use pc_monitor.Auth.Limiter.{Limiter, new_limiter, times_of, prune, store, allow, fail, reset}
use pc_monitor.Auth.Limiter.Window.{
  recent, IsOrdered, prune-recent, prune-IsOrdered, prune-All, recent-recent, recent-append,
  IsOrdered-append, All-le,
}

-- A call on the limiter, with the key that it is given.
pub data Op : Type 0 where
  allowing failing resetting : Bytes → Op

-- Every failure since the last reset of each key, and every failure at all, oldest first.
pub record History : Type 0 where
  pub of_key : Bytes → List ℕ
  pub of_all : List ℕ

abbrev pub no_history : History
no_history = record { of_key = λ key. []; of_all = [] }

-- The promise of `Allow`: fewer than `per_key` failures of the key and fewer than `global` in all
-- within the window that ends now.
unfoldable pub admits : ℕ → ℕ → ℕ → History → ℕ → Bytes → Bool
admits window per_key global h now key =
    ltb (length (recent (now - window) (h.of_key key))) per_key
    && ltb (length (recent (now - window) h.of_all)) global

unfoldable pub record_op : History → ℕ → Op → History
record_op h now (allowing key) = h
record_op h now (failing key) = record {
  of_key = λ j. if bytes_eq key j then h.of_key j ++ (now ∷ []) else h.of_key j;
  of_all = h.of_all ++ (now ∷ []);
}
record_op h now (resetting key) = record {
  of_key = λ j. if bytes_eq key j then [] else h.of_key j;
  of_all = h.of_all;
}

unfoldable pub step : Limiter → ℕ → Op → Limiter
step l now (allowing key) = (allow l now key).1
step l now (failing key) = fail l now key
step l now (resetting key) = reset l key

-- What `Allow` answers; the other calls answer nothing.
unfoldable pub answer : Limiter → ℕ → Op → List Bool
answer l now (allowing key) = (allow l now key).0 ∷ []
answer l now _ = []

unfoldable pub spec_answer : ℕ → ℕ → ℕ → History → ℕ → Op → List Bool
spec_answer w p g h now (allowing key) = admits w p g h now key ∷ []
spec_answer w p g h now _ = []

-- The answers to a sequence of timed calls.
unfoldable pub run : Limiter → List (ℕ × Op) → List Bool
run l [] = []
run l ((now, op) ∷ es) = answer l now op ++ run (step l now op) es

unfoldable pub spec_run : ℕ → ℕ → ℕ → History → List (ℕ × Op) → List Bool
spec_run w p g h [] = []
spec_run w p g h ((now, op) ∷ es) =
    spec_answer w p g h now op ++ spec_run w p g (record_op h now op) es

-- Each call comes no earlier than the one before.
abbrev pub InOrder : ℕ → List (ℕ × Op) → Type 0
InOrder t [] = Unit {0}
InOrder t ((now, op) ∷ es) = (t ≤ now) × InOrder now es

-- A stored list shows the same failures in the window at `t` as the whole history.
record Shows (w t : ℕ) (stored full : List ℕ) : Type 0 where
  same : recent (t - w) stored ≡ recent (t - w) full
  ordered : IsOrdered stored
  past : All (λ u. u ≤ t) stored

Shows-nil : (w t : ℕ) → Shows w t [] []
Shows-nil w t = record { same = refl; ordered = tt; past = tt }

Shows-later : (w : ℕ) {t t' : ℕ} {ss fs : List ℕ} → t ≤ t' → Shows w t ss fs → Shows w t' ss fs
Shows-later w {t} {t'} {ss} {fs} h s = record {
  same =
      sym (recent-recent (t - w) (t' - w) ss (omega arith))
      ∙ ap (recent (t' - w)) s.same
      ∙ recent-recent (t - w) (t' - w) fs (omega arith);
  ordered = s.ordered;
  past = All-le t t' ss h s.past;
}

Shows-append :
    (w t : ℕ) {ss fs : List ℕ} → Shows w t ss fs → Shows w t (ss ++ (t ∷ [])) (fs ++ (t ∷ []))
Shows-append w t {ss} {fs} s = record {
  same =
      recent-append (t - w) ss (t ∷ [])
      ∙ ap (λ xs. xs ++ recent (t - w) (t ∷ [])) s.same
      ∙ sym (recent-append (t - w) fs (t ∷ []));
  ordered = IsOrdered-append ss t s.past s.ordered;
  past = All-append (λ u. u ≤ t) ss (t ∷ []) s.past (omega arith);
}

Shows-prune : (w t c : ℕ) {ss fs : List ℕ} → c ≡ t - w → Shows w t ss fs → Shows w t (prune ss c) fs
Shows-prune w t c {ss} {fs} e s = record {
  same =
      ap (recent (t - w)) (prune-recent c ss s.ordered)
      ∙ recent-recent c (t - w) ss (omega arith)
      ∙ s.same;
  ordered = prune-IsOrdered c ss s.ordered;
  past = prune-All (λ u. u ≤ t) c ss s.past;
}

pub times_of-insert :
    (k j : Bytes) (ts : List ℕ) (m : List (Bytes × List ℕ))
    → times_of j (insert k ts m) ≡ (if bytes_eq k j then ts else times_of j m)
unfolding times_of
times_of-insert k j ts m = ground (arith, lookup-insert k j ts m)

pub times_of-delete :
    (k j : Bytes) (m : List (Bytes × List ℕ))
    → times_of j (delete k m) ≡ (if bytes_eq k j then [] else times_of j m)
unfolding times_of
times_of-delete k j m = ground (arith, lookup-delete k j m)

times_of-store :
    (k j : Bytes) (ts : List ℕ) (m : List (Bytes × List ℕ))
    → times_of j (store k ts m) ≡ (if bytes_eq k j then ts else times_of j m)
unfolding store
times_of-store k j [] m =
    ground (arith, times_of-delete k j (insert k [] m), times_of-insert k j [] m)
times_of-store k j (t ∷ ts) m = times_of-insert k j (t ∷ ts) m

-- The limiter shows its history at time `t`.
record Sim (w p g t : ℕ) (l : Limiter) (h : History) : Type 0 where
  window_is : l.window ≡ w
  per_key_is : l.per_key ≡ p
  global_is : l.global ≡ g
  keys : (key : Bytes) → Shows w t (times_of key l.fails) (h.of_key key)
  all : Shows w t l.all_fails h.of_all

Sim-later :
    {w p g t t' : ℕ} {l : Limiter} {h : History} → t ≤ t' → Sim w p g t l h → Sim w p g t' l h
Sim-later {w} e s = record {
  window_is = s.window_is;
  per_key_is = s.per_key_is;
  global_is = s.global_is;
  keys = λ key. Shows-later w e (s.keys key);
  all = Shows-later w e s.all;
}

module _ {w p g now : ℕ} {l : Limiter} {h : History} (s : Sim w p g now l h) (key : Bytes) where
  cutoff : now - l.window ≡ now - w
  cutoff = ap (λ v. now - v) s.window_is

  allow-keys :
      (j : Bytes)
      → Shows w now
          (times_of j (store key (prune (times_of key l.fails) (now - l.window)) l.fails))
          (h.of_key j)
  allow-keys j = rw times_of-store (elim (Bool-cases (bytes_eq key j)) [
    | inl e ↦ rw e (
        Shows-prune w now (now - l.window) cutoff (
          subst (λ k. Shows w now (times_of k l.fails) (h.of_key j))
            (sym ((bytes_eq_iff key j).0 e)) (s.keys j)))
    | inr e ↦ rw e (s.keys j)
  ])

  fail-keys :
      (j : Bytes)
      → Shows w now
          (times_of j (insert key (times_of key l.fails ++ (now ∷ [])) l.fails))
          (if bytes_eq key j then h.of_key j ++ (now ∷ []) else h.of_key j)
  fail-keys j = rw times_of-insert (elim (Bool-cases (bytes_eq key j)) [
    | inl e ↦ rw e (
        Shows-append w now (
          subst (λ k. Shows w now (times_of k l.fails) (h.of_key j))
            (sym ((bytes_eq_iff key j).0 e)) (s.keys j)))
    | inr e ↦ rw e (s.keys j)
  ])

  reset-keys :
      (j : Bytes)
      → Shows w now (times_of j (delete key l.fails)) (if bytes_eq key j then [] else h.of_key j)
  reset-keys j = rw times_of-delete (elim (Bool-cases (bytes_eq key j)) [
    | inl e ↦ rw e (Shows-nil w now)
    | inr e ↦ rw e (s.keys j)
  ])

  allow-all : Shows w now (prune l.all_fails (now - l.window)) h.of_all
  allow-all = Shows-prune w now (now - l.window) cutoff s.all

  count_key :
      length (times_of key (store key (prune (times_of key l.fails) (now - l.window)) l.fails))
      ≡ length (recent (now - w) (h.of_key key))
  count_key = ap length (
      times_of-store key key (prune (times_of key l.fails) (now - l.window)) l.fails
      ∙ ap (λ b. if b then prune (times_of key l.fails) (now - l.window) else times_of key l.fails)
          (bytes_eq_refl key)
      ∙ prune-recent (now - l.window) (times_of key l.fails) (s.keys key).ordered
      ∙ ap (λ c. recent c (times_of key l.fails)) cutoff
      ∙ (s.keys key).same)

  count_all : length (prune l.all_fails (now - l.window)) ≡ length (recent (now - w) h.of_all)
  count_all = ap length (
      prune-recent (now - l.window) l.all_fails s.all.ordered
      ∙ ap (λ c. recent c l.all_fails) cutoff
      ∙ s.all.same)

Sim-step :
    {w p g now : ℕ} {l : Limiter} {h : History} (op : Op)
    → Sim w p g now l h
    → Sim w p g now (step l now op) (record_op h now op)
unfolding step record_op allow fail reset
Sim-step (allowing key) s = record {
  window_is = s.window_is;
  per_key_is = s.per_key_is;
  global_is = s.global_is;
  keys = allow-keys s key;
  all = allow-all s key;
}
Sim-step {w} {now = now} (failing key) s = record {
  window_is = s.window_is;
  per_key_is = s.per_key_is;
  global_is = s.global_is;
  keys = fail-keys s key;
  all = Shows-append w now s.all;
}
Sim-step (resetting key) s = record {
  window_is = s.window_is;
  per_key_is = s.per_key_is;
  global_is = s.global_is;
  keys = reset-keys s key;
  all = s.all;
}

Sim-answer :
    {w p g now : ℕ} {l : Limiter} {h : History} (op : Op)
    → Sim w p g now l h
    → answer l now op ≡ spec_answer w p g h now op
unfolding answer spec_answer allow admits
Sim-answer {w} {now = now} {l} {h} (allowing key) s =
    ap (λ b. b ∷ [])
      (ap₂ ◌&&◌ (ap₂ ltb (count_key s key) s.per_key_is) (ap₂ ltb (count_all s key) s.global_is))
Sim-answer (failing key) s = refl
Sim-answer (resetting key) s = refl

run-spec_run :
    (es : List (ℕ × Op)) {w p g t : ℕ} {l : Limiter} {h : History}
    → InOrder t es
    → Sim w p g t l h
    → run l es ≡ spec_run w p g h es
unfolding run spec_run
run-spec_run [] o s = refl
run-spec_run ((now, op) ∷ es) o s =
    let s' = Sim-later o.0 s in ap₂ ◌++◌ (Sim-answer op s') (run-spec_run es o.1 (Sim-step op s'))

new_limiter-Sim : (w p g : ℕ) → Sim w p g 0 (new_limiter w p g) no_history
unfolding new_limiter times_of lookup
new_limiter-Sim w p g = record {
  window_is = refl;
  per_key_is = refl;
  global_is = refl;
  keys = λ key. Shows-nil w 0;
  all = Shows-nil w 0;
}

-- Over any sequence of calls whose times do not go back, a new limiter answers each `Allow` as the
-- complete history does: true exactly when the key has had fewer than `per_key` failures since its
-- last reset, and all keys together fewer than `global`, within the window that ends at the call.
pub run_refines :
    (w p g : ℕ) (es : List (ℕ × Op))
    → InOrder 0 es
    → run (new_limiter w p g) es ≡ spec_run w p g no_history es
run_refines w p g es o = run-spec_run es o (new_limiter-Sim w p g)
