-- ===== src/Pm2/Acl.antt =====
-- agent/internal/providers/pm2/acl_linux.go and listenControl of control.go: who may use the
-- control socket. What the system's calls bring, and looking up a user, are arguments.
pub mod Granted
mod Tests
use pc_monitor.Base.{
  ℕ, ◌+◌, ◌*◌, ◌/◌, ◌%◌, ◌^◌, ◌-◌, Bool, true, false, List, [], ◌∷◌, ◌++◌, Option, none, some,
  Bytes, codes, if◌then◌else◌,
}
use pc_monitor.Base.Int.{ℤ, to_u64}
use pc_monitor.Base.Scanner.{parse_int}
use pc_monitor.Provider.Registry.{is_blank}

unfoldable pub le16 : ℕ → Bytes
le16 n = n % 256 ∷ n / 2 ^ 8 % 256 ∷ []

unfoldable pub le32 : ℕ → Bytes
le32 n = n % 256 ∷ n / 2 ^ 8 % 256 ∷ n / 2 ^ 16 % 256 ∷ n / 2 ^ 24 % 256 ∷ []

-- An entry of an access list.
pub record AclEntry : Type 0 where
  pub tag : ℕ
  pub perm : ℕ
  pub id : ℕ

abbrev pub user_obj : ℕ
user_obj = 1

abbrev pub user_tag : ℕ
user_tag = 2

abbrev pub group_obj : ℕ
group_obj = 4

abbrev pub mask_tag : ℕ
mask_tag = 16

abbrev pub other_tag : ℕ
other_tag = 32

abbrev pub rw_perm : ℕ
rw_perm = 6

abbrev pub no_id : ℕ
no_id = 2 ^ 32 - 1

-- `uint32(uid)`
abbrev pub to_u32 : ℤ → ℕ
to_u32 uid = to_u64 uid % 2 ^ 32

unfoldable pub acl_entries : ℤ → List AclEntry
acl_entries uid =
    record { tag = user_obj; perm = rw_perm; id = no_id }
    ∷ record { tag = user_tag; perm = rw_perm; id = to_u32 uid }
    ∷ record { tag = group_obj; perm = 0; id = no_id }
    ∷ record { tag = mask_tag; perm = rw_perm; id = no_id }
    ∷ record { tag = other_tag; perm = 0; id = no_id }
    ∷ []

unfoldable pub entry_bytes : List AclEntry → Bytes
entry_bytes [] = []
entry_bytes (e ∷ es) = le16 e.tag ++ (le16 e.perm ++ (le32 e.id ++ entry_bytes es))

-- What `allowUser` sets on the path.
unfoldable pub acl_bytes : ℤ → Bytes
acl_bytes uid = le32 2 ++ entry_bytes (acl_entries uid)

-- What a user is looked up as: an error, or the text of a number.
pub data LookedUp : Type 0 where
  no_user uid_text : Bytes → LookedUp

-- The calls that `listenControl` makes; `listen` stands for one that succeeds.
pub data ListenCall : Type 0 where
  remove_old listen chmod_600 close_listener : ListenCall
  set_acl : Bytes → ListenCall

-- What the calls bring: an error or none, and of the removal whether nothing was there.
pub record ListenWorld : Type 0 where
  pub remove : Option (Bool × Bytes)
  pub listen : Option Bytes
  pub chmod : Option Bytes
  pub set_acl : Option Bytes
  pub atoi_error : Bytes → Bytes
  pub user : Bytes → LookedUp
  pub quote : Bytes → Bytes

-- An error, or none where it listens, and the calls made.
pub record Listening : Type 0 where
  pub error : Option Bytes
  pub calls : List ListenCall

abbrev pub after : List ListenCall → Listening → Listening
after cs l = record l { calls = cs ++ l.calls }

abbrev pub fail_listen : Bytes → Listening
fail_listen e = record { error = some e; calls = close_listener ∷ [] }

abbrev pub acl_result : Bytes → Option Bytes → Listening
acl_result allow none = record { error = none; calls = [] }
acl_result allow (some e) =
    fail_listen (codes "let " ++ (allow ++ (codes " use the control socket: " ++ e)))

abbrev pub give_access : ListenWorld → Bytes → ℤ → Listening
give_access w allow uid = after (set_acl (acl_bytes uid) ∷ []) (acl_result allow w.set_acl)

-- A failed `Atoi` of what the system gives as a uid.
abbrev pub access_by_text : ListenWorld → Bytes → Bytes → Option ℤ → Listening
access_by_text w allow text none = fail_listen (w.atoi_error text)
access_by_text w allow text (some uid) = give_access w allow uid

abbrev pub access_by_user : ListenWorld → Bytes → LookedUp → Listening
access_by_user w allow (no_user e) =
    fail_listen (codes "user " ++ (w.quote allow ++ (codes ": " ++ e)))
access_by_user w allow (uid_text t) = access_by_text w allow t (parse_int t)

abbrev pub access_by_number : ListenWorld → Bytes → Option ℤ → Listening
access_by_number w allow (some uid) = give_access w allow uid
access_by_number w allow none = access_by_user w allow (w.user allow)

abbrev pub after_chmod : ListenWorld → Bytes → Option Bytes → Listening
after_chmod w allow (some e) = fail_listen e
after_chmod w allow none =
    if is_blank allow
    then record { error = none; calls = [] }
    else access_by_number w allow (parse_int allow)

abbrev pub after_listen : ListenWorld → Bytes → Option Bytes → Listening
after_listen w allow (some e) = record { error = some e; calls = [] }
after_listen w allow none = after (listen ∷ chmod_600 ∷ []) (after_chmod w allow w.chmod)

-- A socket that is not there is no error.
abbrev pub after_remove : ListenWorld → Bytes → Option (Bool × Bytes) → Listening
after_remove w allow (some (false, e)) = record { error = some e; calls = [] }
after_remove w allow (some (true, e)) = after_listen w allow w.listen
after_remove w allow none = after_listen w allow w.listen

-- `listenControl`
unfoldable pub listen_control : ListenWorld → Bytes → Listening
listen_control w allow = after (remove_old ∷ []) (after_remove w allow w.remove)
