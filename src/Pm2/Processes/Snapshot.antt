-- ===== src/Pm2/Processes/Snapshot.antt =====
-- agent/internal/providers/pm2/pm2.go: the snapshot of the helper, and the requests made from it.
-- The file and its JSON are arguments; times are in nanoseconds, the snapshot's in milliseconds.
use pc_monitor.Base.{
  ℕ, ◌-◌, ◌*◌, ◌^◌, ◌<◌, min, max, Bool, true, false, ◌||◌, List, [], ◌∷◌, map, Option, none, some,
  Bytes, codes, bytes_eq, take, if◌then◌else◌, ◌≡◌, ◌↔◌, arith, ap, ◌∙◌,
}
use pc_monitor.Base.Int.{ℤ, pos, negsuc, ◌-ℤ◌, ◌*ℤ◌, ◌≤ℤ◌, ltb_ℤ, to_u64, to_i64}
use pc_monitor.Provider.{
  CallError, bad_action, unknown_unit, action_start, action_stop, action_restart,
}
use pc_monitor.Pm2.Clean.{Unicode, clean}
use pc_monitor.Pm2.Processes.{Proc, Bound, bind}

pub record Snapshot : Type 0 where
  pub t : ℤ
  pub every : ℤ
  pub error : Bytes
  pub procs : List Proc

-- What JSON has of a process: the paths of its logs never leave the helper.
abbrev stored_proc : Proc → Proc
stored_proc p = record p { out_log = []; err_log = [] }

-- What JSON has of a snapshot.
abbrev pub stored_snapshot : Snapshot → Snapshot
stored_snapshot s = record s { procs = map stored_proc s.procs }

-- What reading the file gives: it is not there, another error, or what JSON reads of its content,
-- if it does.
pub data File : Type 0 where
  missing : File
  read_failed : Bytes → File
  content : Option Snapshot → File

pub data SnapshotError : Type 0 where
  no_snapshot unreadable from_the_future too_old : SnapshotError
  not_read reported : Bytes → SnapshotError

pub data Taken : Type 0 where
  fresh : List Proc → Taken
  not_fresh : SnapshotError → Taken

-- 45 seconds
abbrev pub stale_after : ℕ
stale_after = 45 * 1000000000

abbrev pub max_procs : ℕ
max_procs = 500

-- `a * b` on `int64`
unfoldable pub mul_i64 : ℤ → ℤ → ℤ
mul_i64 a b = to_i64 (to_u64 (a *ℤ b))

abbrev pub min_ℤ : ℤ → ℤ → ℤ
min_ℤ a b = if ltb_ℤ b a then b else a

abbrev pub max_ℤ : ℤ → ℤ → ℤ
max_ℤ a b = if ltb_ℤ a b then b else a

-- `max(StaleAfter, 3*time.Duration(min(every, 1h in ms))*time.Millisecond)`
unfoldable pub stale_limit : ℤ → ℤ
stale_limit every =
    max_ℤ (pos stale_after) (mul_i64 (mul_i64 (pos 3) (min_ℤ every (pos 3600000))) (pos 1000000))

-- `Time.Sub` stops at the ends of `int64`.
unfoldable pub clamp_i64 : ℤ → ℤ
clamp_i64 a = max_ℤ (negsuc (2 ^ 63 - 1)) (min_ℤ a (pos (2 ^ 63 - 1)))

unfoldable pub age_of : ℤ → ℤ → ℤ
age_of now t = clamp_i64 (now -ℤ t *ℤ pos 1000000)

-- What follows from the two tests of the age and the error that pm2 reported.
abbrev verdict : Bool → Bool → Bytes → Bytes → List Proc → Taken
verdict true old error cleaned ps = not_fresh from_the_future
verdict false true error cleaned ps = not_fresh too_old
verdict false false [] cleaned ps = fresh ps
verdict false false (c ∷ error) cleaned ps = not_fresh (reported cleaned)

-- The end of `snapshot`, from the age on.
unfoldable pub judge : Unicode → ℤ → ℤ → Snapshot → Taken
judge u age stale s =
    verdict (ltb_ℤ age (pos 0 -ℤ stale)) (ltb_ℤ stale age) s.error (clean u 300 s.error)
      (take max_procs s.procs)

unfoldable pub snapshot : Unicode → ℤ → File → Taken
snapshot u now missing = not_fresh no_snapshot
snapshot u now (read_failed e) = not_fresh (not_read e)
snapshot u now (content none) = not_fresh unreadable
snapshot u now (content (some s)) = judge u (age_of now s.t) (stale_limit s.every) s

verdict_iff :
    (early old : Bool) (error cleaned : Bytes) (qs ps : List Proc)
    → (verdict early old error cleaned qs ≡ fresh ps)
      ↔ ((early ≡ false) × (old ≡ false) × (error ≡ []) × (ps ≡ qs))
verdict_iff true old error cleaned qs ps = ground arith
verdict_iff false true error cleaned qs ps = ground arith
verdict_iff false false [] cleaned qs ps = ground arith
verdict_iff false false (c ∷ error) cleaned qs ps = ground arith

not_ltb_ℤ : (a b : ℤ) → (ltb_ℤ a b ≡ false) ↔ (b ≤ℤ a)
not_ltb_ℤ a b = ground arith

-- A snapshot is used exactly where pm2 reported no error and the stamp is, to either side, no
-- further from now than the limit; of its processes the first 500 count.
pub judge_iff :
    (u : Unicode) (age stale : ℤ) (s : Snapshot) (ps : List Proc)
    → (judge u age stale s ≡ fresh ps)
      ↔ ((pos 0 -ℤ stale ≤ℤ age) × (age ≤ℤ stale) × (s.error ≡ []) × (ps ≡ take max_procs s.procs))
unfolding judge
judge_iff u age stale s ps = (
  λ h.
      let (early, old, none_said, same) =
        (verdict_iff _ _ s.error (clean u 300 s.error) _ ps).0 h in
      ((not_ltb_ℤ age (pos 0 -ℤ stale)).0 early, (not_ltb_ℤ stale age).0 old, none_said, same),
  λ (above, below, none_said, same).
      (verdict_iff _ _ s.error (clean u 300 s.error) _ ps).1
        ((not_ltb_ℤ age (pos 0 -ℤ stale)).1 above, (not_ltb_ℤ stale age).1 below, none_said, same),
)

*ℤ-pos : (a b : ℕ) → pos a *ℤ pos b ≡ pos (a * b)
unfolding ◌*ℤ◌
*ℤ-pos a b = ground arith

mul_i64-pos : (a b : ℕ) → a * b < 2 ^ 63 → mul_i64 (pos a) (pos b) ≡ pos (a * b)
unfolding mul_i64 to_i64 to_u64
mul_i64-pos a b h = ap (λ z. to_i64 (to_u64 z)) (*ℤ-pos a b) ∙ small (a * b) h
  where
    small : (n : ℕ) → n < 2 ^ 63 → to_i64 (to_u64 (pos n)) ≡ pos n
    small n k = ground arith

min_ℤ-pos : (a b : ℕ) → min_ℤ (pos a) (pos b) ≡ pos (min a b)
min_ℤ-pos a b = ground arith

max_ℤ-pos : (a b : ℕ) → max_ℤ (pos a) (pos b) ≡ pos (max a b)
max_ℤ-pos a b = ground arith

-- For an interval that is not negative nothing overflows: the limit is three intervals, of at most
-- an hour each, and at least 45 seconds.
pub stale_limit-pos :
    (n : ℕ) → stale_limit (pos n) ≡ pos (max stale_after (3 * min n 3600000 * 1000000))
unfolding stale_limit
stale_limit-pos n =
    ap (λ z. max_ℤ (pos stale_after) (mul_i64 (mul_i64 (pos 3) z) (pos 1000000)))
      (min_ℤ-pos n 3600000)
    ∙ ap (λ z. max_ℤ (pos stale_after) (mul_i64 z (pos 1000000)))
        (mul_i64-pos 3 (min n 3600000) (omega arith))
    ∙ ap (max_ℤ (pos stale_after)) (mul_i64-pos (3 * min n 3600000) 1000000 (omega arith))
    ∙ max_ℤ-pos stale_after (3 * min n 3600000 * 1000000)

-- A request to the helper.
pub record ControlRequest : Type 0 where
  pub action : Bytes
  pub id : ℤ
  pub name : Bytes
  pub tail : ℤ

pub data Sent : Type 0 where
  refused : CallError → Sent
  stale : SnapshotError → Sent
  send : ControlRequest → Sent

-- The loop over `bind` that looks for a unit.
unfoldable pub find_bound : Bytes → List Bound → Option Proc
find_bound id [] = none
find_bound id (b ∷ bs) = if bytes_eq b.unit.id id then some b.proc else find_bound id bs

abbrev pub request_for : Bytes → ℤ → Option Proc → Sent
request_for action tail none = refused unknown_unit
request_for action tail (some p) =
    send (record { action = action; id = p.id; name = p.name; tail = tail })

unfoldable pub request_from : Unicode → List Bytes → ℤ → Taken → Bytes → Bytes → ℤ → Sent
request_from u exclude now (not_fresh e) id action tail = stale e
request_from u exclude now (fresh ps) id action tail =
    request_for action tail (find_bound id (bind u exclude now ps))

unfoldable pub do_process : Unicode → List Bytes → ℤ → File → Bytes → Bytes → Sent
do_process u exclude now file id action =
    if bytes_eq action action_start || bytes_eq action action_stop || bytes_eq action action_restart
    then request_from u exclude now (snapshot u now file) id action (pos 0)
    else refused bad_action

unfoldable pub logs_process : Unicode → List Bytes → ℤ → File → Bytes → ℤ → Sent
logs_process u exclude now file id tail =
    request_from u exclude now (snapshot u now file) id (codes "logs") tail
