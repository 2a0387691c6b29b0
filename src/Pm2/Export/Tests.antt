-- ===== src/Pm2/Export/Tests.antt =====
-- A round of the helper for one process with a file of accounts, and a write that can't rename.
use pc_monitor.Base.{
  Option, [], ◌∷◌, List, Bytes, codes, some, none, All, map, take, bytes_eq, lookup, ◌≡◌, ◌↔◌, refl,
}
use pc_monitor.Base.Int.{pos, ◌-ℤ◌, ◌≤ℤ◌}
use pc_monitor.Pm2.Clean.{Unicode}
use pc_monitor.Pm2.Names.{Patterns}
use pc_monitor.Pm2.Processes.{Proc}
use pc_monitor.Pm2.Processes.Snapshot.{
  Snapshot, stored_snapshot, content, fresh, max_procs, stale_limit, age_of, snapshot,
}
use pc_monitor.Pm2.Control.{answer, JlistProc}
use pc_monitor.Pm2.Export.{
  object, one_more, closed, ExportOptions, World, new_exporter, take_snapshot,
}
use pc_monitor.Pm2.Export.Filtered.{IsFiltered, IsAccountList, take_snapshot-IsFiltered}
use pc_monitor.Pm2.Export.Read.{plain, answered_list, snapshot-take_snapshot_iff}
use pc_monitor.Pm2.Export.Write.{Calls, marshalled, write_snapshot}
use pc_monitor.Pm2.Export.Write.Atomic.{IsAtomic, write_snapshot-IsAtomic}

abbrev ascii : Unicode
ascii = record { runes = λ s. s; encode = λ s. s; lower = λ s. s }

abbrev patterns : Patterns
patterns = record {
  strip_ansi = λ s. s;
  signed_in = λ s. none;
  logged_in_tag = λ s. none;
  logged_in = λ s. none;
}

abbrev entry : JlistProc
entry = record {
  name = codes "bot";
  pm_id = pos 0;
  monit = none;
  status = codes "online";
  uptime = pos 1;
  restarts = pos 0;
  interpreter = [];
  out_log = codes "/o";
  err_log = codes "/e";
}

abbrev options : ExportOptions
options = record { every = pos 10000000000; accounts = (codes "bot", codes "/bots.json") ∷ [] }

abbrev world : World
world = record {
  pm2 = answer (some (entry ∷ []));
  raw_error = [];
  user = codes "pi";
  account_file = λ path. object (one_more (codes "main") closed);
  stat = λ path. none;
  handle = λ path. none;
  now = 5000000;
}

take_snapshot-IsFiltered_example :
    All
      (λ p. IsFiltered ascii options world p × IsAccountList p.accounts)
      (take_snapshot ascii patterns options world new_exporter).snap.procs
take_snapshot-IsFiltered_example =
    take_snapshot-IsFiltered ascii options world patterns new_exporter

abbrev read_back : Bytes → Option Snapshot
read_back raw =
    some (stored_snapshot (take_snapshot ascii patterns options world new_exporter).snap)

snapshot-take_snapshot_iff_example :
    let s = (take_snapshot ascii patterns options world new_exporter).snap in
    (snapshot ascii (pos 9000000) (content (read_back [])) ≡ fresh (stored_snapshot s).procs) ↔ (
      ((qs : List Proc) × (answered_list ascii world.pm2 ≡ some qs)
        × (map plain s.procs ≡ map plain qs))
      × (pos 0 -ℤ stale_limit s.every ≤ℤ age_of (pos 9000000) s.t)
      × (age_of (pos 9000000) s.t ≤ℤ stale_limit s.every)
      × ((stored_snapshot s).procs ≡ take max_procs (stored_snapshot s).procs))
snapshot-take_snapshot_iff_example =
    snapshot-take_snapshot_iff ascii patterns options world new_exporter (pos 9000000)
      (stored_snapshot (take_snapshot ascii patterns options world new_exporter).snap).procs
      (λ s. []) read_back refl

abbrev calls : Calls
calls = record {
  create = none;
  write = none;
  part = 0;
  close = none;
  chmod = none;
  rename = some (codes "no space");
  remove = none;
}

abbrev old_files : List (Bytes × Bytes)
old_files = (codes "/p", codes "old") ∷ []

write_snapshot-IsAtomic_example :
    IsAtomic
      (codes "/p")
      (codes "new")
      (lookup (codes "/p") old_files)
      old_files
      (write_snapshot (codes "/p") (codes "/t") (marshalled (codes "new")) old_files calls)
unfolding bytes_eq
write_snapshot-IsAtomic_example =
    write_snapshot-IsAtomic (codes "/p") (codes "/t") (codes "new") refl calls old_files
