-- ===== src/Pm2/Export/Filtered.antt =====
-- What a snapshot may tell: accounts of the files that are listed, and logins of those accounts.
use pc_monitor.Base.{
  ◌≤◌, ◌<◌, true, false, not, ◌&&◌, List, [], ◌∷◌, ◌++◌, map, Option, none, some, Bytes, member,
  lookup, length, length-append, ltb, if◌then◌else◌, All, All-append, All-insert, All-map,
  bytes_eq_refl, Bool-cases, inl, inr, ◌≡◌, refl, sym, ap, ◌∙◌, arith, subst,
}
use pc_monitor.Provider.Registry.{is_blank}
use pc_monitor.Pm2.Clean.{Unicode, clean}
use pc_monitor.Pm2.Names.{Patterns, NameCache}
use pc_monitor.Pm2.Processes.{Proc, max_accounts}
use pc_monitor.Pm2.Control.{Answer, list_error, answer, JlistProc, proc_of, parse_procs}
use pc_monitor.Pm2.Export.{
  Members, closed, member_failed, one_more, AccountFile, unreadable, no_token, not_object, object,
  member_names, accounts_of, ExportOptions, Exporter, World, names_found, give_accounts, Entry,
  take_procs, take_answer, add_accounts, add_found, listed_logins, add_names, take_snapshot,
}

-- At most so many names as there is room for, none of them empty.
abbrev pub IsAccountList : List Bytes → Type 0
IsAccountList names = (length names ≤ max_accounts) × All (λ a. is_blank a ≡ false) names

member-IsAccountList :
    (names : List Bytes) (k : Bytes)
    → IsAccountList names
    → IsAccountList
        (if not (is_blank k) && ltb (length names) max_accounts then names ++ (k ∷ []) else names)
member-IsAccountList names [] h = h
member-IsAccountList names (c ∷ k) (few, h) = elim (Bool-cases (ltb (length names) max_accounts)) [
  | inr e ↦ rw e (few, h)
  | inl e ↦
      let room : length names < max_accounts = ground (arith, e) in
      rw e (longer room, All-append (λ a. is_blank a ≡ false) names ((c ∷ k) ∷ []) h (refl, tt))
]
  where
    longer : length names < max_accounts → length (names ++ ((c ∷ k) ∷ [])) ≤ max_accounts
    longer room = ground (arith, length-append names ((c ∷ k) ∷ []))

member_names-IsAccountList :
    (u : Unicode) (ms : Members) (names : List Bytes)
    → IsAccountList names
    → IsAccountList (names_found (member_names u ms names))
unfolding member_names
member_names-IsAccountList u closed names h = h
member_names-IsAccountList u (member_failed e) names h = (omega arith, tt)
member_names-IsAccountList u (one_more key rest) names h =
    member_names-IsAccountList u rest _ (member-IsAccountList names (clean u 64 key) h)

accounts_of-IsAccountList :
    (u : Unicode) (f : AccountFile) → IsAccountList (names_found (accounts_of u f))
unfolding accounts_of length
accounts_of-IsAccountList u (unreadable e) = (omega arith, tt)
accounts_of-IsAccountList u (no_token e) = (omega arith, tt)
accounts_of-IsAccountList u not_object = (omega arith, tt)
accounts_of-IsAccountList u (object ms) = member_names-IsAccountList u ms [] (omega arith, tt)

-- Every login is under an account that is listed.
abbrev pub IsLogins : List Bytes → List (Bytes × Bytes) → Type 0
IsLogins accounts logins = All (λ e. member e.0 accounts ≡ true) logins

-- What the options and the files say of a name.
abbrev pub listed_in : Unicode → World → Option Bytes → List Bytes
listed_in u w none = []
listed_in u w (some file) = names_found (accounts_of u (w.account_file file))

abbrev pub listed_accounts : Unicode → ExportOptions → World → Bytes → List Bytes
listed_accounts u o w name = listed_in u w (lookup name o.accounts)

-- A process whose accounts are those that its file of the options names, or none, and whose logins
-- are under these.
pub record IsFiltered (u : Unicode) (o : ExportOptions) (w : World) (p : Proc) : Type 0 where
  pub accounts : p.accounts ≡ listed_accounts u o w p.name
  pub logins : IsLogins p.accounts p.logins

listed_in-IsAccountList :
    (u : Unicode) (w : World) (file : Option Bytes) → IsAccountList (listed_in u w file)
unfolding length
listed_in-IsAccountList u w none = (omega arith, tt)
listed_in-IsAccountList u w (some file) = accounts_of-IsAccountList u (w.account_file file)

member_head : (a : Bytes) (as' : List Bytes) → member a (a ∷ as') ≡ true
unfolding member
member_head a as' = rw (bytes_eq_refl a) refl

member_tail : (a b : Bytes) (as' : List Bytes) → member a as' ≡ true → member a (b ∷ as') ≡ true
unfolding member
member_tail a b as' h = ground (arith, h)

-- A list within another one.
member_each : (as' : List Bytes) → All (λ a. member a as' ≡ true) as'
member_each [] = tt
member_each (a ∷ as') =
    (member_head a as', All-map _ _ as' (λ b. member_tail b a as') (member_each as'))

-- As `ParseProcs` leaves a process.
abbrev IsBare : Proc → Type 0
IsBare p = (p.accounts ≡ []) × (p.logins ≡ [])

parse_procs-IsBare : (u : Unicode) (rs : List JlistProc) → All IsBare (map (proc_of u) rs)
unfolding proc_of
parse_procs-IsBare u [] = tt
parse_procs-IsBare u (r ∷ rs) = ((refl, refl), parse_procs-IsBare u rs)

module _ (u : Unicode) (o : ExportOptions) (w : World) where
  -- Between the two loops.
  abbrev IsListed : Proc → Type 0
  IsListed p = (p.accounts ≡ listed_accounts u o w p.name) × (p.logins ≡ [])

  give_accounts-IsListed :
      (p : Proc) (file : Option Bytes) (last : List (Bytes × Bytes))
      → file ≡ lookup p.name o.accounts
      → IsBare p
      → IsListed (give_accounts u w p file last).0
  give_accounts-IsListed p none last e (bare, free) = (bare ∙ ap (listed_in u w) e, free)
  give_accounts-IsListed p (some file) last e (bare, free) = (ap (listed_in u w) e, free)

  add_accounts-IsListed :
      (ps : List Proc) (last : List (Bytes × Bytes))
      → All IsBare ps
      → All IsListed (add_accounts u w o.accounts ps last).0
  unfolding add_accounts
  add_accounts-IsListed [] last h = tt
  add_accounts-IsListed (p ∷ ps) last (b, h) = (
    give_accounts-IsListed p (lookup p.name o.accounts) last refl b,
    add_accounts-IsListed ps _ h,
  )

  listed_logins-IsLogins :
      (as' : List Bytes) (logins m : List (Bytes × Bytes)) (all : List Bytes)
      → All (λ a. member a all ≡ true) as'
      → IsLogins all m
      → IsLogins all (listed_logins as' logins m)
  unfolding listed_logins
  listed_logins-IsLogins [] logins m all s h = h
  listed_logins-IsLogins (a ∷ as') logins m all (i, s) h =
      listed_logins-IsLogins as' logins _ all s (add (lookup a logins))
    where
      add : (d : Option Bytes) → IsLogins all (add_found a d m)
      add none = h
      add (some d) = All-insert (λ k. member k all ≡ true) a d m i h

  add_names-IsFiltered :
      (r : Patterns) (ps : List Proc) (names : List (Bytes × NameCache))
      → All IsListed ps
      → All (IsFiltered u o w) (add_names u r w ps names).0
  unfolding add_names
  add_names-IsFiltered r [] names h = tt
  add_names-IsFiltered r (p ∷ ps) names ((listed, free), h) = (
    record {
      accounts = listed;
      logins =
          listed_logins-IsLogins p.accounts _ p.logins p.accounts (member_each p.accounts)
            (subst (IsLogins p.accounts) (sym free) tt);
    },
    add_names-IsFiltered r ps _ h,
  )

  take_procs-IsFiltered :
      (r : Patterns) (es : List Entry) (x : Exporter) (rs : Option (List JlistProc))
      → All (IsFiltered u o w) (take_procs u r o w es x (parse_procs u rs)).snap.procs
  unfolding parse_procs
  take_procs-IsFiltered r es x none = tt
  take_procs-IsFiltered r es x (some rs) =
      add_names-IsFiltered r _ x.names
        (add_accounts-IsListed _ x.last_warn (parse_procs-IsBare u rs))

  take_answer-IsFiltered :
      (r : Patterns) (x : Exporter) (a : Answer)
      → All (IsFiltered u o w) (take_answer u r o w x a).snap.procs
  take_answer-IsFiltered r x (list_error e) = tt
  take_answer-IsFiltered r x (answer raw) = take_procs-IsFiltered r _ _ raw

  -- In the snapshot that a round takes, the accounts of each process are those that JSON reads from
  -- the file which the options give for its name, none where there is no file or it can't be read;
  -- they are at most 50 and not empty, and all logins are under these accounts, whatever the log of
  -- the process says.
  pub take_snapshot-IsFiltered :
      (r : Patterns) (x : Exporter)
      → All
          (λ p. IsFiltered u o w p × IsAccountList p.accounts)
          (take_snapshot u r o w x).snap.procs
  unfolding take_snapshot
  take_snapshot-IsFiltered r x =
      All-map (IsFiltered u o w) _ _
        (λ p f. (
          f,
          subst IsAccountList (sym f.accounts)
              (listed_in-IsAccountList u w (lookup p.name o.accounts)),
        ))
        (take_answer-IsFiltered r x w.pm2)
