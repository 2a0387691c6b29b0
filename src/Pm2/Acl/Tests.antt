-- ===== src/Pm2/Acl/Tests.antt =====
-- The control socket for the user 33.
use pc_monitor.Base.{
  ◌||◌, ◌==◌, List, ℕ, Bool, true, codes, none, some, if◌then◌else◌, span_digits, value, ◌≡◌, refl,
  arith,
}
use pc_monitor.Base.Int.{pos}
use pc_monitor.Base.Scanner.{parse_int, parse_uint}
use pc_monitor.Pm2.Acl.{AclEntry, ListenWorld, no_user, rw_perm, acl_bytes, listen_control}
use pc_monitor.Pm2.Acl.Granted.{calls_for, read_acl, granted, listen_control-granted}

abbrev world : ListenWorld
world = record {
  remove = some (true, codes "no such file");
  listen = none;
  chmod = none;
  set_acl = none;
  atoi_error = λ s. s;
  user = λ s. no_user (codes "unknown");
  quote = λ s. s;
}

listen_control-granted_example :
    ((listen_control world (codes "33")).calls ≡ calls_for (pos 33))
    × ((es : List AclEntry) × (read_acl (acl_bytes (pos 33)) ≡ some es)
        × ((owner caller : ℕ) (in_group : Bool)
            → granted es owner caller in_group
              ≡ (if caller == owner || caller == 33 then rw_perm else 0)))
unfolding listen_control parse_int parse_uint span_digits value
listen_control-granted_example =
    listen_control-granted world (codes "33") 33 refl refl (omega arith) refl
