-- ===== src/Pm2/Acl/Granted.antt =====
-- What the access list on the control socket grants.
use pc_monitor.Base.{
  ℕ, ◌+◌, ◌*◌, ◌/◌, ◌%◌, ◌^◌, ◌<◌, ◌==◌, ◌&&◌, ◌||◌, Bool, true, false, not, is_some, subst, List,
  [], ◌∷◌, ◌++◌, Option, none, some, Bytes, if◌then◌else◌, ◌≡◌, refl, sym, ap, ◌∙◌, arith,
}
use pc_monitor.Base.Int.{ℤ, pos, to_u64}
use pc_monitor.Base.Scanner.{parse_int}
use pc_monitor.Provider.Registry.{is_blank}
use pc_monitor.Pm2.Acl.{
  LookedUp, no_user, uid_text, ListenCall, remove_old, listen, chmod_600, close_listener, set_acl,
  ListenWorld, Listening, after, fail_listen, acl_result, give_access, access_by_text,
  access_by_user, access_by_number, after_chmod, after_listen, after_remove, listen_control,
  AclEntry, le16, le32, acl_entries, entry_bytes, acl_bytes, to_u32, user_obj, user_tag, group_obj,
  mask_tag, other_tag, rw_perm, no_id,
}
use Prim.Native.Nat.{bit_and}

-- The layout of linux/posix_acl_xattr.h, read back: pairs of 16-bit tag and permission, and a 32-bit
-- id, behind the version.
unfoldable pub read_entries : Bytes → List AclEntry
read_entries (t0 ∷ t1 ∷ p0 ∷ p1 ∷ i0 ∷ i1 ∷ i2 ∷ i3 ∷ s) =
    record {
      tag = t0 + t1 * 2 ^ 8;
      perm = p0 + p1 * 2 ^ 8;
      id = i0 + i1 * 2 ^ 8 + i2 * 2 ^ 16 + i3 * 2 ^ 24;
    }
    ∷ read_entries s
read_entries _ = []

unfoldable pub read_acl : Bytes → Option (List AclEntry)
read_acl (v0 ∷ v1 ∷ v2 ∷ v3 ∷ s) =
    if v0 + v1 * 2 ^ 8 + v2 * 2 ^ 16 + v3 * 2 ^ 24 == 2 then some (read_entries s) else none
read_acl _ = none

-- The permission of the first entry with a tag, and with a tag and an id; without one there is none.
unfoldable pub perm_of : ℕ → List AclEntry → ℕ
perm_of tag [] = 0
perm_of tag (e ∷ es) = if e.tag == tag then e.perm else perm_of tag es

unfoldable pub perm_for : ℕ → List AclEntry → Option ℕ
perm_for uid [] = none
perm_for uid (e ∷ es) =
    if (e.tag == user_tag) && (e.id == uid) then some e.perm else perm_for uid es

-- acl(5), the access check: the owner; else a named user, within the mask; else one of the file's
-- group, within the mask; else the others. (The list has no named groups.)
abbrev pub by_group : List AclEntry → Bool → Option ℕ → ℕ
by_group es in_group (some p) = bit_and p (perm_of mask_tag es)
by_group es true none = bit_and (perm_of group_obj es) (perm_of mask_tag es)
by_group es false none = perm_of other_tag es

unfoldable pub granted : List AclEntry → ℕ → ℕ → Bool → ℕ
granted es owner uid in_group =
    if uid == owner then perm_of user_obj es else by_group es in_group (perm_for uid es)

id-le32 :
    (n : ℕ)
    → n < 2 ^ 32
    → n % 256 + n / 2 ^ 8 % 256 * 2 ^ 8 + n / 2 ^ 16 % 256 * 2 ^ 16 + n / 2 ^ 24 % 256 * 2 ^ 24 ≡ n
id-le32 n h = omega arith

-- What `allowUser` writes is read back as its entries.
read_acl-acl_bytes : (uid : ℤ) → read_acl (acl_bytes uid) ≡ some (acl_entries uid)
unfolding read_acl acl_bytes acl_entries entry_bytes le16 le32 read_entries
read_acl-acl_bytes uid = ap (λ i. some (entries_with i)) (id-le32 (to_u32 uid) (omega arith))
  where
    entries_with : ℕ → List AclEntry
    entries_with i =
        record { tag = user_obj; perm = rw_perm; id = no_id }
        ∷ record { tag = user_tag; perm = rw_perm; id = i }
        ∷ record { tag = group_obj; perm = 0; id = no_id }
        ∷ record { tag = mask_tag; perm = rw_perm; id = no_id }
        ∷ record { tag = other_tag; perm = 0; id = no_id }
        ∷ []

granted-acl_entries :
    (uid owner caller : ℕ) (in_group : Bool)
    → uid < 2 ^ 32
    → granted (acl_entries (pos uid)) owner caller in_group
      ≡ (if caller == owner || caller == uid then rw_perm else 0)
unfolding granted acl_entries perm_of perm_for to_u64
granted-acl_entries uid owner caller true h = ground arith
granted-acl_entries uid owner caller false h = ground arith

-- The uid that a name stands for: a number, or the user of that name.
abbrev uid_in_text : LookedUp → Option ℤ
uid_in_text (no_user e) = none
uid_in_text (uid_text t) = parse_int t

abbrev pub or_user : LookedUp → Option ℤ → Option ℤ
or_user l none = uid_in_text l
or_user l (some uid) = some uid

abbrev pub uid_of : ListenWorld → Bytes → Option ℤ
uid_of w allow = or_user (w.user allow) (parse_int allow)

-- Whether the listener is left open by the calls.
abbrev pub is_open : Bool → List ListenCall → Bool
is_open o [] = o
is_open o (listen ∷ cs) = is_open true cs
is_open o (close_listener ∷ cs) = is_open false cs
is_open o (remove_old ∷ cs) = is_open o cs
is_open o (chmod_600 ∷ cs) = is_open o cs
is_open o (set_acl b ∷ cs) = is_open o cs

-- The calls of a socket that only its owner and one user may use.
abbrev pub calls_for : ℤ → List ListenCall
calls_for uid = remove_old ∷ listen ∷ chmod_600 ∷ set_acl (acl_bytes uid) ∷ []

-- Open where there is no error and closed where there is one; without an error, the calls are those
-- for the uid of the name.
abbrev pub IsSafe : Option ℤ → List ListenCall → Listening → Type 0
IsSafe uid before l =
    (is_open true l.calls ≡ not (is_some l.error))
    × (l.error ≡ none → (n : ℤ) × (uid ≡ some n) × (before ++ l.calls ≡ calls_for n))

module _ (w : ListenWorld) (allow : Bytes) where
  abbrev chmodded : List ListenCall
  chmodded = remove_old ∷ listen ∷ chmod_600 ∷ []

  fail_listen-IsSafe :
      (uid : Option ℤ) (before : List ListenCall) (e : Bytes) → IsSafe uid before (fail_listen e)
  fail_listen-IsSafe uid before e = (refl, λ h. absurd (ground (arith, h)))

  give_access-IsSafe : (n : ℤ) → IsSafe (some n) chmodded (give_access w allow n)
  give_access-IsSafe n = with_result w.set_acl
    where
      with_result :
          (e : Option Bytes)
          → IsSafe (some n) chmodded (after (set_acl (acl_bytes n) ∷ []) (acl_result allow e))
      with_result none = (refl, λ h. (n, refl, refl))
      with_result (some e) = (refl, λ h. absurd (ground (arith, h)))

  by_text-IsSafe : (t : Bytes) (n : Option ℤ) → IsSafe n chmodded (access_by_text w allow t n)
  by_text-IsSafe t none = fail_listen-IsSafe none chmodded (w.atoi_error t)
  by_text-IsSafe t (some n) = give_access-IsSafe n

  by_number-IsSafe :
      (l : LookedUp) (n : Option ℤ)
      → w.user allow ≡ l
      → IsSafe (or_user l n) chmodded (access_by_number w allow n)
  by_number-IsSafe l (some n) e = give_access-IsSafe n
  by_number-IsSafe (no_user x) none e =
      subst (λ m. IsSafe none chmodded (access_by_user w allow m)) (sym e)
        (fail_listen-IsSafe none chmodded _)
  by_number-IsSafe (uid_text t) none e =
      subst (λ m. IsSafe (parse_int t) chmodded (access_by_user w allow m)) (sym e)
        (by_text-IsSafe t (parse_int t))

  after_chmod-IsSafe :
      is_blank allow ≡ false
      → (e : Option Bytes) → IsSafe (uid_of w allow) chmodded (after_chmod w allow e)
  after_chmod-IsSafe named none = rw named (by_number-IsSafe (w.user allow) (parse_int allow) refl)
  after_chmod-IsSafe named (some e) = fail_listen-IsSafe (uid_of w allow) chmodded e

  -- The same from the start, before anything listens.
  abbrev IsSafeStart : Listening → Type 0
  IsSafeStart l =
      (is_open false l.calls ≡ not (is_some l.error))
      × (l.error ≡ none
          → (n : ℤ) × (uid_of w allow ≡ some n) × (remove_old ∷ l.calls ≡ calls_for n))

  after_listen-IsSafe :
      is_blank allow ≡ false → (e : Option Bytes) → IsSafeStart (after_listen w allow e)
  after_listen-IsSafe named none = after_chmod-IsSafe named w.chmod
  after_listen-IsSafe named (some e) = (refl, λ h. absurd (ground (arith, h)))

  after_remove-IsSafe :
      is_blank allow ≡ false → (e : Option (Bool × Bytes)) → IsSafeStart (after_remove w allow e)
  after_remove-IsSafe named none = after_listen-IsSafe named w.listen
  after_remove-IsSafe named (some (true, e)) = after_listen-IsSafe named w.listen
  after_remove-IsSafe named (some (false, e)) = (refl, λ h. absurd (ground (arith, h)))

  -- With a user to allow, the listener stays open exactly where there is no error.
  listen_control-is_open :
      is_blank allow ≡ false
      → is_open false (listen_control w allow).calls ≡ not (is_some (listen_control w allow).error)
  unfolding listen_control
  listen_control-is_open named = (after_remove-IsSafe named w.remove).0

  -- Where `listenControl` succeeds for a name whose uid has 32 bits: it took the old socket away,
  -- listened, left the socket to its owner and then set an access list, which, read back as the
  -- system lays it out, lets the owner and that uid read and write and no one else do anything,
  -- whatever their groups are.
  pub listen_control-granted :
      (uid : ℕ)
      → is_blank allow ≡ false
      → uid_of w allow ≡ some (pos uid)
      → uid < 2 ^ 32
      → (listen_control w allow).error ≡ none
      → ((listen_control w allow).calls ≡ calls_for (pos uid))
        × ((es : List AclEntry) × (read_acl (acl_bytes (pos uid)) ≡ some es)
            × ((owner caller : ℕ) (in_group : Bool)
                → granted es owner caller in_group
                  ≡ (if caller == owner || caller == uid then rw_perm else 0)))
  unfolding listen_control
  listen_control-granted uid named is small fine =
      let (n, same, calls) = (after_remove-IsSafe named w.remove).1 fine in
      let known : n ≡ pos uid = ground (arith, is, same) in
      (
        calls ∙ ap calls_for known,
        (
          acl_entries (pos uid),
          read_acl-acl_bytes (pos uid),
          λ owner caller in_group. granted-acl_entries uid owner caller in_group small,
        ),
      )
