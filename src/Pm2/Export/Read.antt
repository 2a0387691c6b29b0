-- ===== src/Pm2/Export/Read.antt =====
-- The snapshot of the helper in the hands of dashd.
use pc_monitor.Base.{
  List, [], ◌∷◌, map, lookup, ap₂, Option, none, some, Bytes, take, ◌≡◌, ◌≢◌, ◌↔◌, refl, ap, ◌∙◌,
  arith,
}
use pc_monitor.Base.Int.{ℤ, pos, ◌-ℤ◌, ◌≤ℤ◌}
use pc_monitor.Pm2.Clean.{Unicode}
use pc_monitor.Pm2.Names.{Patterns, NameCache}
use pc_monitor.Pm2.Processes.{Proc}
use pc_monitor.Pm2.Processes.Snapshot.{
  Snapshot, stored_snapshot, content, fresh, max_procs, stale_limit, age_of, judge, snapshot,
  judge_iff,
}
use pc_monitor.Pm2.Control.{
  RpcError, not_running, no_permission, timed_out, pm2_refused, other_failure, Answer, list_error,
  answer, explain, parse_procs,
}
use pc_monitor.Pm2.Export.{
  ExportOptions, Exporter, World, Entry, give_accounts, add_accounts, add_names, take_procs,
  take_answer, take_snapshot,
}

-- The list that pm2 answered with.
abbrev pub answered_list : Unicode → Answer → Option (List Proc)
answered_list u (list_error e) = none
answered_list u (answer raw) = parse_procs u raw

explain_nonempty : (u : Unicode) (user : Bytes) (e : RpcError) → explain u user e ≢ []
unfolding explain
explain_nonempty u user not_running h = ground (arith, h)
explain_nonempty u user no_permission h = ground (arith, h)
explain_nonempty u user timed_out h = ground (arith, h)
explain_nonempty u user (pm2_refused s) h = ground (arith, h)
explain_nonempty u user (other_failure s) h = ground (arith, h)

-- A process without what the files tell of it.
abbrev pub plain : Proc → Proc
plain p = record p { accounts = []; discord = []; logins = [] }

module _ (u : Unicode) (r : Patterns) (o : ExportOptions) (w : World) where
  give_accounts-plain :
      (p : Proc) (file : Option Bytes) (last : List (Bytes × Bytes))
      → plain (give_accounts u w p file last).0 ≡ plain p
  give_accounts-plain p none last = refl
  give_accounts-plain p (some file) last = refl

  add_accounts-plain :
      (ps : List Proc) (last : List (Bytes × Bytes))
      → map plain (add_accounts u w o.accounts ps last).0 ≡ map plain ps
  unfolding add_accounts
  add_accounts-plain [] last = refl
  add_accounts-plain (p ∷ ps) last =
      ap₂ (λ q qs. q ∷ qs) (give_accounts-plain p (lookup p.name o.accounts) last)
        (add_accounts-plain ps _)

  add_names-plain :
      (ps : List Proc) (names : List (Bytes × NameCache))
      → map plain (add_names u r w ps names).0 ≡ map plain ps
  unfolding add_names
  add_names-plain [] names = refl
  add_names-plain (p ∷ ps) names = ap (λ qs. plain p ∷ qs) (add_names-plain ps _)

  -- What a round makes of the list.
  abbrev IsTaken : Snapshot → Option (List Proc) → Type 0
  IsTaken s none = (s.error ≢ []) × (s.procs ≡ [])
  IsTaken s (some qs) = (s.error ≡ []) × (map plain s.procs ≡ map plain qs)

  take_procs-IsTaken :
      (es : List Entry) (x : Exporter) (qs : Option (List Proc))
      → IsTaken (take_procs u r o w es x qs).snap qs
  take_procs-IsTaken es x none = (λ h. ground (arith, h), refl)
  take_procs-IsTaken es x (some qs) =
      (refl, add_names-plain _ x.names ∙ add_accounts-plain qs x.last_warn)

  take_answer-IsTaken :
      (x : Exporter) (a : Answer) → IsTaken (take_answer u r o w x a).snap (answered_list u a)
  take_answer-IsTaken x (list_error e) = (explain_nonempty u w.user e, refl)
  take_answer-IsTaken x (answer raw) = take_procs-IsTaken _ _ (parse_procs u raw)

  taken_iff :
      (s : Snapshot) (list : Option (List Proc))
      → IsTaken s list
      → (s.error ≡ []) ↔ ((qs : List Proc) × (list ≡ some qs) × (map plain s.procs ≡ map plain qs))
  taken_iff s none h = (λ e. absurd (h.0 e), λ (qs, e, p). absurd (ground (arith, e)))
  taken_iff s (some qs) h = (λ e. (qs, refl, h.1), λ x. h.0)

  -- Where the file holds the JSON of the snapshot that a round took, which has all of it but the
  -- paths of the logs, and JSON reads that back: dashd lists processes exactly where pm2 had answered
  -- that round with a readable list and the stamp is, to either side, within the limit of the
  -- snapshot's own interval. Then they are the first 500 of the snapshot, without those paths, whose
  -- processes are those of pm2's list, in its order and as pm2 has them but for accounts and names.
  pub snapshot-take_snapshot_iff :
      (x : Exporter) (now : ℤ) (ps : List Proc) (encode : Snapshot → Bytes)
      (decode : Bytes → Option Snapshot)
      → decode (encode (stored_snapshot (take_snapshot u r o w x).snap))
        ≡ some (stored_snapshot (take_snapshot u r o w x).snap)
      → let s = (take_snapshot u r o w x).snap in
        (snapshot u now (content (decode (encode (stored_snapshot s)))) ≡ fresh ps) ↔ (
          ((qs : List Proc) × (answered_list u w.pm2 ≡ some qs)
            × (map plain s.procs ≡ map plain qs))
          × (pos 0 -ℤ stale_limit s.every ≤ℤ age_of now s.t)
          × (age_of now s.t ≤ℤ stale_limit s.every)
          × (ps ≡ take max_procs (stored_snapshot s).procs))
  unfolding snapshot take_snapshot
  snapshot-take_snapshot_iff x now ps encode decode law = rw law (
    λ h. let (above, below, clear, same) = judged.0 h in (listed.0 clear, above, below, same),
    λ (got, above, below, same). judged.1 (above, below, listed.1 got, same),
  )
    where
      s : Snapshot
      s = (take_answer u r o w x w.pm2).snap

      judged : (judge u (age_of now s.t) (stale_limit s.every) (stored_snapshot s) ≡ fresh ps) ↔ (
          (pos 0 -ℤ stale_limit s.every ≤ℤ age_of now s.t)
          × (age_of now s.t ≤ℤ stale_limit s.every)
          × (s.error ≡ [])
          × (ps ≡ take max_procs (stored_snapshot s).procs))
      judged = judge_iff u (age_of now s.t) (stale_limit s.every) (stored_snapshot s) ps

      listed : (s.error ≡ []) ↔ (
          (qs : List Proc) × (answered_list u w.pm2 ≡ some qs) × (map plain s.procs ≡ map plain qs))
      listed = taken_iff s (answered_list u w.pm2) (take_answer-IsTaken x w.pm2)
