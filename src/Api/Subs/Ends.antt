-- ===== src/Api/Subs/Ends.antt =====
-- How many streams a connection can have, and that none outlives it.
use pc_monitor.Base.{
  ℕ, ◌≤◌, ◌<◌, true, false, not, List, [], ◌∷◌, Option, none, some, Bytes, bytes_eq, bytes_eq_iff,
  bytes_eq_refl, lookup, keep_if, length, leb, ◌==◌, All, UniqueKeys, lookup-insert, Bool-cases,
  inl, inr, ◌≡◌, refl, sym, ap, ◌∙◌, arith, codes,
}
use pc_monitor.Api.Subs.{
  max_log_subs, Subs, no_subs, stop, unsubscribe, start, subscribe_logs, is_own, release, stop_each,
  hang_up, ClientMsg, on_message, has_number, Step, message, stops, releases, Reach, opened,
  then_step,
}
use pc_monitor.Api.Subs.Streams.{
  Known, IsValid, Freed, length-delete_le, length-insert_le, length-live_le, Known-delete,
  Known-insert, stop-IsValid, unsubscribe-Freed,
}

start-IsValid :
    (unit : Bytes) (s : Subs) → Freed unit s → length s.subs < max_log_subs → IsValid (start unit s)
unfolding start
start-IsValid unit s f h = record {
  few = omega (arith, length-insert_le unit s.next s.subs);
  one_each = (f.free, f.valid.one_each);
  known = (
    rw (lookup-insert, bytes_eq_refl) refl,
    Known-insert unit s.next s.subs s.live f.free f.valid.known,
  );
}

subscribe_logs-IsValid : (unit : Bytes) (s : Subs) → IsValid s → IsValid (subscribe_logs unit s).1
unfolding subscribe_logs
subscribe_logs-IsValid unit s h =
    let f = unsubscribe-Freed unit s h in
    elim (Bool-cases (leb max_log_subs (length (unsubscribe unit s).subs))) [
      | inl e ↦ rw e f.valid
      | inr e ↦ rw e (start-IsValid unit (unsubscribe unit s) f (ground (arith, e)))
    ]

on_message-IsValid : (m : ClientMsg) (s : Subs) → IsValid s → IsValid (on_message m s)
unfolding on_message
on_message-IsValid m s h = elim (Bool-cases (bytes_eq m.op (codes "logs"))) [
  | inl e ↦ rw e (subscribe_logs-IsValid m.unit s h)
  | inr e ↦ rw e (elim (Bool-cases (bytes_eq m.op (codes "unlogs"))) [
    | inl f ↦ rw f (unsubscribe-Freed m.unit s h).valid
    | inr f ↦ rw f h
  ])
]

is_own-eq : (o : Option ℕ) (n : ℕ) → is_own o n ≡ true → o ≡ some n
is_own-eq none n h = absurd (ground arith)
is_own-eq (some m) n h = ap some (ground arith)

-- A stream that is live is not of the unit whose entry belongs to a stopped one.
no_unit-released :
    (unit : Bytes) (n : ℕ) (m live : List (Bytes × ℕ))
    → lookup unit m ≡ some n
    → has_number n live ≡ false
    → Known m live
    → All (λ e. bytes_eq e.0 unit ≡ false) live
no_unit-released unit n m [] at gone h = tt
no_unit-released unit n m ((k, j) ∷ live) at gone (hk, h) = elim (Bool-cases (j == n)) [
  | inl e ↦ absurd (ground (arith, e, gone))
  | inr e ↦ (
    elim (Bool-cases (bytes_eq k unit)) [
      | inr ne ↦ ne
      | inl is ↦
          let same : some j ≡ some n =
            sym hk ∙ ap (λ i. lookup i m) ((bytes_eq_iff k unit).0 is) ∙ at in
          absurd (ground (arith, e, same))
    ],
    no_unit-released unit n m live at (rw e at gone) h,
  )
]

release-IsValid :
    (unit : Bytes) (n : ℕ) (s : Subs)
    → has_number n s.live ≡ false
    → IsValid s
    → IsValid (release unit n s)
unfolding release
release-IsValid unit n s gone h = elim (Bool-cases (is_own (lookup unit s.subs) n)) [
  | inl e ↦ rw e (record {
    few = omega (arith, length-delete_le unit s.subs, h.few);
    one_each = h.one_each;
    known =
        Known-delete unit s.subs s.live
          (no_unit-released unit n s.subs s.live (is_own-eq (lookup unit s.subs) n e) gone h.known)
          h.known;
  })
  | inr e ↦ rw e (record { few = h.few; one_each = h.one_each; known = h.known })
]

Step-IsValid : {s t : Subs} → Step s t → IsValid s → IsValid t
Step-IsValid {s = s} (message m) h = on_message-IsValid m s h
Step-IsValid {s = s} (stops unit n r) h = stop-IsValid n s h
Step-IsValid {s = s} (releases unit n r gone) h = release-IsValid unit n s gone h

Reach-IsValid : {s : Subs} → Reach s → IsValid s
unfolding no_subs
Reach-IsValid opened = record { few = omega arith; one_each = tt; known = tt }
Reach-IsValid (then_step r st) = Step-IsValid st (Reach-IsValid r)

has_number-lookup :
    (k : Bytes) (n : ℕ) (m : List (Bytes × ℕ)) → lookup k m ≡ some n → has_number n m ≡ true
unfolding lookup
has_number-lookup k n [] h = absurd (ground arith)
has_number-lookup k n ((j, v) ∷ m) h = elim (Bool-cases (bytes_eq j k)) [
  | inl e ↦ ground (arith, rw e at h)
  | inr e ↦ ground (arith, has_number-lookup k n m (rw e at h))
]

-- Every stream has its number among the entries.
abbrev Listed : List (Bytes × ℕ) → List (Bytes × ℕ) → Type 0
Listed es live = All (λ e. has_number e.1 es ≡ true) live

Known-Listed : (m live : List (Bytes × ℕ)) → Known m live → Listed m live
Known-Listed m [] h = tt
Known-Listed m ((k, n) ∷ live) (at, h) = (has_number-lookup k n m at, Known-Listed m live h)

Listed-stopped :
    (unit : Bytes) (n : ℕ) (es live : List (Bytes × ℕ))
    → Listed ((unit, n) ∷ es) live
    → Listed es (keep_if (λ e. not (e.1 == n)) live)
unfolding keep_if
Listed-stopped unit n es [] h = tt
Listed-stopped unit n es ((k, j) ∷ live) (at, h) = elim (Bool-cases (j == n)) [
  | inl e ↦ rw e (Listed-stopped unit n es live h)
  | inr e ↦ rw e (ground (arith, e, at), Listed-stopped unit n es live h)
]

stop_each_none : (es : List (Bytes × ℕ)) (s : Subs) → Listed es s.live → (stop_each es s).live ≡ []
unfolding stop_each stop
stop_each_none [] s h = nothing s.live h
  where
    nothing : (live : List (Bytes × ℕ)) → Listed [] live → live ≡ []
    nothing [] k = refl
    nothing (e ∷ live) (k, ks) = absurd (ground (arith, k))
stop_each_none ((unit, n) ∷ es) s h =
    stop_each_none es (stop n s) (Listed-stopped unit n es s.live h)

-- However the client's messages and the ends of the streams interleave, at most four streams are
-- live, each of another unit and each the one that the client's map has for its unit; and the end
-- of the connection, which stops what the map has, leaves none.
pub streams_bounded :
    {s : Subs}
    → Reach s
    → (length s.live ≤ max_log_subs)
      × UniqueKeys s.live
      × Known s.subs s.live
      × ((hang_up s).live ≡ [])
unfolding hang_up
streams_bounded {s = s} r =
    let h = Reach-IsValid r in
    (
      omega (arith, length-live_le s.subs s.live h.one_each h.known, h.few),
      h.one_each,
      h.known,
      stop_each_none s.subs s (Known-Listed s.subs s.live h.known),
    )
