-- ===== src/Audit/Tests.antt =====
-- The theorems on the log, with a line that is only the user's name in the place of JSON.
use pc_monitor.Base.{
  true, List, [], ◌∷◌, map, some, Bytes, codes, contains_byte, length, ◌≡◌, refl, arith, All,
}
use pc_monitor.Base.Scanner.{drop_cr}
use pc_monitor.Audit.{Entry, Json, open_log}
use pc_monitor.Audit.Reopen.{IsLine, append_all, empty_log, open_log-append_all}

abbrev by_user : Bytes → Entry
by_user s = record { time = 0; user = s; ip = []; unit = []; action = []; ok = true; error = [] }

abbrev plain : Json
plain = record { marshal = λ e. some e.user; unmarshal = λ s. some (by_user s) }

abbrev entries : List (Bytes × Entry)
entries = (codes "me", by_user (codes "me")) ∷ (codes "you", by_user (codes "you")) ∷ []

entries_lines : All (λ p. IsLine plain p.1 p.0) entries
unfolding contains_byte drop_cr length
entries_lines = (
  record {
    written = refl;
    read = refl;
    token = record { one_line = refl; no_return = refl; short = omega arith };
  },
  (
    record {
      written = refl;
      read = refl;
      token = record { one_line = refl; no_return = refl; short = omega arith };
    },
    tt,
  ),
)

open_log-append_all_example :
    open_log plain (append_all plain empty_log (map (λ p. p.1) entries)).file true true
    ≡ some (append_all plain empty_log (map (λ p. p.1) entries))
open_log-append_all_example = open_log-append_all plain entries entries_lines
