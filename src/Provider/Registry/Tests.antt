-- ===== src/Provider/Registry/Tests.antt =====
-- The theorems on the registry, at two providers that list units of the same local ids.
use pc_monitor.Base.{
  true, [], ◌∷◌, none, Bytes, codes, bytes_eq, contains_byte, lookup, insert, ◌≡◌, ◌↔◌, refl,
}
use pc_monitor.Base.Int.{pos}
use pc_monitor.Provider.{ProviderUnit, valid_action}
use pc_monitor.Provider.Registry.{
  ServiceProvider, Registry, listed, new_registry, add, added, passed_on, do_action,
}
use pc_monitor.Provider.Registry.Routing.{
  IsValid, new_registry-IsValid, add-IsValid, Names, do_action_iff,
}

abbrev unit_named : Bytes → ProviderUnit
unit_named s = record {
  id = s;
  provider = [];
  name = s;
  kind = [];
  state = [];
  health = [];
  uptime_sec = pos 0;
  cpu = none;
  mem_bytes = none;
  mem_limit = none;
  actions = none;
  meta = [];
  about = [];
}

abbrev provider_named : Bytes → ServiceProvider
provider_named s = record {
  name = s;
  listing = listed (unit_named (codes "b") ∷ unit_named (codes "a:b") ∷ []);
}

abbrev docker : ServiceProvider
docker = provider_named (codes "docker")

abbrev pm2 : ServiceProvider
pm2 = provider_named (codes "pm2")

abbrev with_docker : Registry
with_docker = record { list = docker ∷ []; by_name = (codes "docker", docker) ∷ [] }

abbrev with_both : Registry
with_both = record {
  list = docker ∷ pm2 ∷ [];
  by_name = (codes "docker", docker) ∷ (codes "pm2", pm2) ∷ [];
}

docker_added : add new_registry docker ≡ added with_docker
unfolding add new_registry contains_byte lookup insert bytes_eq
docker_added = refl

pm2_added : add with_docker pm2 ≡ added with_both
unfolding add contains_byte lookup insert bytes_eq
pm2_added = refl

with_both-IsValid : IsValid with_both
with_both-IsValid =
    add-IsValid with_docker pm2 (add-IsValid new_registry docker new_registry-IsValid docker_added)
      pm2_added

do_action_iff_example :
    (do_action with_both (codes "pm2:a:b") (codes "stop") ≡ passed_on pm2 (codes "a:b"))
    ↔ ((valid_action (codes "stop") ≡ true) × Names with_both pm2 (codes "a:b") (codes "pm2:a:b"))
do_action_iff_example =
    do_action_iff with_both pm2 (codes "pm2:a:b") (codes "a:b") (codes "stop") with_both-IsValid

abbrev same : Bytes → Bytes
same s = s
