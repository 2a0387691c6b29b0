-- ===== src/Pm2/Names.antt =====
-- agent/internal/providers/pm2/names.go and discordNames of export.go: who a bot logged in as, by
-- its own log. The three patterns and the repair of UTF-8 are parameters.
use pc_monitor.Base.{
  ℕ, Bool, false, not, ◌&&◌, ◌||◌, List, [], ◌∷◌, Option, none, some, Bytes, codes, cut_prefix,
  split, lookup, insert, is_some, length, ltb, ◌==◌, if◌then◌else◌,
}
use pc_monitor.Base.Lines.{newline}
use pc_monitor.Provider.Registry.{is_blank}
use pc_monitor.Provider.CleanLine.{clean_line}
use pc_monitor.Pm2.Clean.{Unicode, clean}
use pc_monitor.Pm2.Logs.{usable_log, read_tail, log_tail}
use pc_monitor.Pm2.Processes.{max_accounts}

-- What `FindStringSubmatch` gives of each pattern: the groups of the first match.
pub record Patterns : Type 0 where
  pub strip_ansi : Bytes → Bytes
  pub signed_in : Bytes → Option (Bytes × Bytes)
  pub logged_in_tag : Bytes → Option Bytes
  pub logged_in : Bytes → Option Bytes

-- `bytes.Contains(s, sub)`
unfoldable pub contains_text : Bytes → Bytes → Bool
contains_text sub [] = is_blank sub
contains_text sub (c ∷ s) = is_some (cut_prefix sub (c ∷ s)) || contains_text sub s

-- The name of a single bot, and the names by account.
abbrev pub Found : Type 0
Found = Bytes × List (Bytes × Bytes)

abbrev pub nothing_found : Found
nothing_found = ([], [])

-- An account that is new is taken up while there is room.
unfoldable pub add_login : Bytes → Bytes → List (Bytes × Bytes) → List (Bytes × Bytes)
add_login acct name logins =
    if not (is_blank acct)
      && not (is_blank name)
      && (is_some (lookup acct logins) || ltb (length logins) max_accounts)
    then insert acct name logins
    else logins

abbrev pub self_of : Unicode → Option Bytes → Option Bytes → Bytes → Bytes
self_of u (some m) plain self = clean u 64 m
self_of u none (some m) self = clean u 64 m
self_of u none none self = self

abbrev pub found_in : Unicode → Patterns → Bytes → Option (Bytes × Bytes) → Found → Found
found_in u r text (some (a, n)) (self, logins) =
    (self, add_login (clean u 64 a) (clean u 64 n) logins)
found_in u r text none (self, logins) =
    (self_of u (r.logged_in_tag text) (r.logged_in text) self, logins)

-- One line of `DiscordNames`.
unfoldable pub read_name : Unicode → Patterns → Bytes → Found → Found
read_name u r line found =
    let text = clean_line r.strip_ansi line in
    if contains_text (codes " in as ") line
    then found_in u r text (r.signed_in text) found
    else found

unfoldable pub read_names : Unicode → Patterns → List Bytes → Found → Found
read_names u r [] found = found
read_names u r (l ∷ ls) found = read_names u r ls (read_name u r l found)

unfoldable pub discord_names : Unicode → Patterns → Bytes → Found
discord_names u r log = read_names u r (split newline log) nothing_found

pub record NameCache : Type 0 where
  pub size : ℕ
  pub mod_time : ℕ
  pub found : Found

-- What `Stat` tells of a path, and what the opened file holds, as of its own `Stat`.
pub record LogStat : Type 0 where
  pub regular : Bool
  pub size : ℕ
  pub mod_time : ℕ

pub record LogHandle : Type 0 where
  pub regular : Bool
  pub mod_time : ℕ
  pub content : Bytes

-- The names of a log before are kept, as long as there is room. (The source goes through them in
-- an order that is not fixed.)
unfoldable pub keep_logins : List (Bytes × Bytes) → List (Bytes × Bytes) → List (Bytes × Bytes)
keep_logins [] logins = logins
keep_logins ((k, v) ∷ old) logins = keep_logins old (
    if not (is_some (lookup k logins)) && ltb (length logins) max_accounts
    then insert k v logins
    else logins)

abbrev pub merge_found : Option NameCache → Found → Found
merge_found none found = found
merge_found (some old) (self, logins) =
    (if is_blank self then old.found.0 else self, keep_logins old.found.1 logins)

-- The tail of a file that is not regular is empty.
abbrev pub tail_of : LogHandle → Bytes
tail_of h = if h.regular then read_tail h.content log_tail else []

abbrev pub is_current : Option NameCache → LogStat → Bool
is_current none st = false
is_current (some c) st = c.size == st.size && c.mod_time == st.mod_time

abbrev pub cached : Option NameCache → Found
cached none = nothing_found
cached (some c) = c.found

abbrev pub reread :
    Unicode
    → Patterns
    → Bytes
    → List (Bytes × NameCache)
    → Option LogHandle
    → Found × List (Bytes × NameCache)
reread u r path names none = (nothing_found, names)
reread u r path names (some h) =
    let found' = merge_found (lookup path names) (discord_names u r (tail_of h)) in
    (
      found',
      insert path (record { size = length h.content; mod_time = h.mod_time; found = found' }) names,
    )

abbrev pub names_at :
    Unicode
    → Patterns
    → Bytes
    → List (Bytes × NameCache)
    → Option LogStat
    → Option LogHandle
    → Found × List (Bytes × NameCache)
names_at u r path names none h = (nothing_found, names)
names_at u r path names (some st) h =
    if not st.regular
    then (nothing_found, names)
    else if is_current (lookup path names) st
    then (cached (lookup path names), names)
    else reread u r path names h

-- `discordNames`, given what `Stat` and opening the file bring.
unfoldable pub names_of :
    Unicode
    → Patterns
    → List (Bytes × NameCache)
    → Bytes
    → Option LogStat
    → Option LogHandle
    → Found × List (Bytes × NameCache)
names_of u r names path st h =
    if usable_log path then names_at u r path names st h else (nothing_found, names)
