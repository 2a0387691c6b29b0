-- ===== src/Pm2/Export.antt =====
-- agent/internal/providers/pm2/export.go and AccountNames of snapshot.go: the snapshots that the
-- helper takes. pm2's answer, the files and the clock are what the world of a round holds.
pub mod Filtered
pub mod Read
pub mod Write
mod Tests
use pc_monitor.Base.{
  ℕ, ◌/◌, Bool, true, false, not, ◌&&◌, List, [], ◌∷◌, ◌++◌, map, Option, none, some, Bytes, codes,
  bytes_eq, member, lookup, insert, is_some, keep_if, length, ltb, if◌then◌else◌,
}
use pc_monitor.Base.Int.{ℤ, pos, ltb_ℤ}
use pc_monitor.Base.Scanner.{quot}
use pc_monitor.Provider.Registry.{is_blank}
use pc_monitor.Pm2.Clean.{Unicode, clean}
use pc_monitor.Pm2.Names.{Patterns, NameCache, LogStat, LogHandle, names_of}
use pc_monitor.Pm2.Processes.{Proc, max_accounts}
use pc_monitor.Pm2.Processes.Snapshot.{Snapshot}
use pc_monitor.Pm2.Control.{Answer, list_error, answer, explain, parse_procs}

-- The rest of a JSON object, as its decoder goes through it: no more members, a key or a value that
-- can't be read, or a key whose value is skipped.
pub data Members : Type 0 where
  closed : Members
  member_failed : Bytes → Members
  one_more : Bytes → Members → Members

-- A file of accounts: it can't be read, its first token can't, it is no object, or an object.
pub data AccountFile : Type 0 where
  unreadable no_token : Bytes → AccountFile
  not_object : AccountFile
  object : Members → AccountFile

-- The names, or an error.
pub data Accounts : Type 0 where
  found : List Bytes → Accounts
  not_found : Bytes → Accounts

unfoldable pub member_names : Unicode → Members → List Bytes → Accounts
member_names u closed names = found names
member_names u (member_failed e) names = not_found e
member_names u (one_more key rest) names =
    let k = clean u 64 key in
    member_names u rest
      (if not (is_blank k) && ltb (length names) max_accounts then names ++ (k ∷ []) else names)

-- `accounts`, and `AccountNames` in it.
unfoldable pub accounts_of : Unicode → AccountFile → Accounts
accounts_of u (unreadable e) = not_found e
accounts_of u (no_token e) = not_found e
accounts_of u not_object = not_found (codes "not a JSON object")
accounts_of u (object ms) = member_names u ms []

-- An entry of the journal.
pub record Entry : Type 0 where
  pub message : Bytes
  pub error : Bytes

abbrev pub text_of : Option Bytes → Bytes
text_of none = []
text_of (some e) = e

abbrev pub last_of : Bytes → List (Bytes × Bytes) → Bytes
last_of key last = text_of (lookup key last)

abbrev pub entry_for : Bytes → Option Bytes → List Entry
entry_for msg none = []
entry_for msg (some e) = record { message = msg; error = e } ∷ []

-- `warn`: what goes to the journal, and the last error of each key.
unfoldable pub warn :
    Bytes → Bytes → Option Bytes → List (Bytes × Bytes) → List Entry × List (Bytes × Bytes)
warn key msg err last =
    if bytes_eq (last_of key last) (text_of err)
    then ([], last)
    else (entry_for msg err, insert key (text_of err) last)

pub record ExportOptions : Type 0 where
  pub every : ℤ
  pub accounts : List (Bytes × Bytes)

-- `NewExporter`; an interval is in nanoseconds.
unfoldable pub every_of : ℤ → ℤ
every_of every = if ltb_ℤ every (pos 1000000000) then pos 10000000000 else every

-- The caches of an exporter.
pub record Exporter : Type 0 where
  pub names : List (Bytes × NameCache)
  pub last_warn : List (Bytes × Bytes)

abbrev pub new_exporter : Exporter
new_exporter = record { names = []; last_warn = [] }

-- What a round meets. `user` is `currentUser()`, `raw_error` the error of the list call as the
-- journal has it. `now` is in nanoseconds since 1970.
pub record World : Type 0 where
  pub pm2 : Answer
  pub raw_error : Bytes
  pub user : Bytes
  pub account_file : Bytes → AccountFile
  pub stat : Bytes → Option LogStat
  pub handle : Bytes → Option LogHandle
  pub now : ℕ

abbrev pub names_found : Accounts → List Bytes
names_found (found names) = names
names_found (not_found e) = []

abbrev pub accounts_error : Accounts → Option Bytes
accounts_error (found names) = none
accounts_error (not_found e) = some e

abbrev pub give_accounts :
    Unicode
    → World
    → Proc
    → Option Bytes
    → List (Bytes × Bytes)
    → Proc × List Entry × List (Bytes × Bytes)
give_accounts u w p none last = (p, [], last)
give_accounts u w p (some file) last =
    let a = accounts_of u (w.account_file file) in
    let (es, last') =
      warn (codes "accounts:" ++ file) (codes "can't read bot account names") (accounts_error a)
        last in
    (record p { accounts = names_found a }, es, last')

-- The first loop of `Take`.
unfoldable pub add_accounts :
    Unicode
    → World
    → List (Bytes × Bytes)
    → List Proc
    → List (Bytes × Bytes)
    → List Proc × List Entry × List (Bytes × Bytes)
add_accounts u w files [] last = ([], [], last)
add_accounts u w files (p ∷ ps) last =
    let (p', es, last') = give_accounts u w p (lookup p.name files) last in
    let (ps', es', last'') = add_accounts u w files ps last' in (p' ∷ ps', es ++ es', last'')

abbrev pub add_found : Bytes → Option Bytes → List (Bytes × Bytes) → List (Bytes × Bytes)
add_found a none m = m
add_found a (some d) m = insert a d m

-- `pr.Logins`, from the accounts that are listed.
unfoldable pub listed_logins :
    List Bytes → List (Bytes × Bytes) → List (Bytes × Bytes) → List (Bytes × Bytes)
listed_logins [] logins m = m
listed_logins (a ∷ as') logins m = listed_logins as' logins (add_found a (lookup a logins) m)

-- The second loop of `Take`.
unfoldable pub add_names :
    Unicode
    → Patterns
    → World
    → List Proc
    → List (Bytes × NameCache)
    → List Proc × List (Bytes × NameCache)
add_names u r w [] names = ([], names)
add_names u r w (p ∷ ps) names =
    let (f, names') = names_of u r names p.out_log (w.stat p.out_log) (w.handle p.out_log) in
    let (ps', names'') = add_names u r w ps names' in
    (record p { discord = f.0; logins = listed_logins p.accounts f.1 p.logins } ∷ ps', names'')

-- The names that stay cached are those of the logs of now.
unfoldable pub keep_live : List Proc → List (Bytes × NameCache) → List (Bytes × NameCache)
keep_live ps names = keep_if (λ e. member e.0 (map (λ p. p.out_log) ps)) names

pub record TakeResult : Type 0 where
  pub snap : Snapshot
  pub journal : List Entry
  pub exporter : Exporter

abbrev pub stamped : ExportOptions → World → Bytes → List Proc → Snapshot
stamped o w error procs = record {
  t = pos (w.now / 1000000);
  every = quot o.every 1000000;
  error = error;
  procs = procs;
}

abbrev pub take_procs :
    Unicode
    → Patterns
    → ExportOptions
    → World
    → List Entry
    → Exporter
    → Option (List Proc)
    → TakeResult
take_procs u r o w es x none = record {
  snap = stamped o w (codes "pm2 sent no readable process list") [];
  journal = es;
  exporter = x;
}
take_procs u r o w es x (some ps) =
    let (ps1, es1, last) = add_accounts u w o.accounts ps x.last_warn in
    let (ps2, names) = add_names u r w ps1 x.names in
    record {
      snap = stamped o w [] ps2;
      journal = es ++ es1;
      exporter = record { names = keep_live ps2 names; last_warn = last };
    }

abbrev pub take_answer : Unicode → Patterns → ExportOptions → World → Exporter → Answer → TakeResult
take_answer u r o w x (list_error e) =
    let (es, last) = warn (codes "pm2") (codes "can't read pm2") (some w.raw_error) x.last_warn in
    record {
      snap = stamped o w (explain u w.user e) [];
      journal = es;
      exporter = record x { last_warn = last };
    }
take_answer u r o w x (answer raw) =
    let (es, last) = warn (codes "pm2") [] none x.last_warn in
    take_procs u r o w es (record x { last_warn = last }) (parse_procs u raw)

-- `Take`: the snapshot, what goes to the journal, and the caches after it.
unfoldable pub take_snapshot : Unicode → Patterns → ExportOptions → World → Exporter → TakeResult
take_snapshot u r o w x = take_answer u r o w x w.pm2
