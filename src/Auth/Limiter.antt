-- ===== src/Auth/Limiter.antt =====
-- agent/internal/auth/limiter.go: failed logins counted in a sliding window, per key and in all.
-- The clock `l.now()` is an argument, in nanoseconds since 1970. Where the clock stands less than
-- one window after 1970 the cutoff is negative in the source and 0 here: both are before every
-- time in the lists.
pub mod Window
pub mod Refine
use pc_monitor.Base.{
  ℕ, ◌-◌, Bool, ◌&&◌, List, [], ◌∷◌, ◌++◌, Option, none, some, Bytes, lookup, insert, delete,
  length, ltb, if◌then◌else◌,
}

pub record Limiter : Type 0 where
  pub window : ℕ
  pub per_key : ℕ
  pub global : ℕ
  pub fails : List (Bytes × List ℕ)
  pub all_fails : List ℕ

unfoldable pub new_limiter : ℕ → ℕ → ℕ → Limiter
new_limiter window per_key global = record {
  window = window;
  per_key = per_key;
  global = global;
  fails = [];
  all_fails = [];
}

-- `m[key]`: nil on a missing key.
unfoldable pub times_of : Bytes → List (Bytes × List ℕ) → List ℕ
times_of key m = elim (lookup key m) [ none ↦ [] | some ts ↦ ts ]

unfoldable pub prune : List ℕ → ℕ → List ℕ
prune [] cutoff = []
prune (t ∷ ts) cutoff = if ltb t cutoff then prune ts cutoff else t ∷ ts

-- `l.fails[key] = ts`, and the deletion that follows where it is empty.
unfoldable pub store : Bytes → List ℕ → List (Bytes × List ℕ) → List (Bytes × List ℕ)
store key [] m = delete key (insert key [] m)
store key (t ∷ ts) m = insert key (t ∷ ts) m

unfoldable pub allow : Limiter → ℕ → Bytes → Bool × Limiter
allow l now key =
    let cutoff : ℕ = now - l.window in
    let fails' = store key (prune (times_of key l.fails) cutoff) l.fails in
    let all' = prune l.all_fails cutoff in
    (
      ltb (length (times_of key fails')) l.per_key && ltb (length all') l.global,
      record l { fails = fails'; all_fails = all' },
    )

unfoldable pub fail : Limiter → ℕ → Bytes → Limiter
fail l now key = record l {
  fails = insert key (times_of key l.fails ++ (now ∷ [])) l.fails;
  all_fails = l.all_fails ++ (now ∷ []);
}

unfoldable pub reset : Limiter → Bytes → Limiter
reset l key = record l { fails = delete key l.fails }
