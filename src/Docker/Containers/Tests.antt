-- ===== src/Docker/Containers/Tests.antt =====
-- The theorems on containers, at one that runs and one that is hidden.
use pc_monitor.Base.{
  List, [], ◌∷◌, none, some, Bytes, codes, bytes_eq, member, any, All, cut_prefix, ◌≡◌, refl,
}
use pc_monitor.Provider.{ProviderUnit}
use pc_monitor.Docker.Containers.{
  Container, Stats, CpuSample, Filter, Answers, name_of, without_slash, hidden, unit_of,
  list_containers,
}
use pc_monitor.Docker.Containers.Kept.{IsOneOf}
use pc_monitor.Docker.Containers.Listed.{IsListed, list_containers-IsListed}
use pc_monitor.Docker.Containers.Actions.{Reply, response}

abbrev shown : Container
shown = record {
  id = codes "0123456789abcdef";
  names = codes "/web" ∷ [];
  image = codes "nginx";
  state = codes "running";
  labels = [];
}

abbrev secret : Container
secret = record shown { names = codes "/db" ∷ [] }

abbrev filter : Filter
filter = record { exclude_labels = []; exclude = codes "db" ∷ [] }

abbrev usage : Stats
usage = record {
  total_usage = 300;
  system_usage = 2000;
  online_cpus = 2;
  usage = 50;
  limit = 100;
  stats = [];
}

abbrev api : Answers
api = record { inspect = λ id. none; stats = λ id. some usage }

abbrev web : Bytes
web = codes "web"

abbrev first : ProviderUnit × List (Bytes × CpuSample)
first = unit_of api 5 web shown []

two_listed : list_containers filter api 5 (shown ∷ secret ∷ []) [] ≡ some (first.0 ∷ [], first.1)
unfolding list_containers name_of without_slash cut_prefix hidden member any bytes_eq
two_listed = refl

list_containers-IsListed_example :
    All (λ u. IsListed filter u × IsOneOf filter u (shown ∷ secret ∷ [])) (first.0 ∷ [])
list_containers-IsListed_example =
    list_containers-IsListed filter api 5 (shown ∷ secret ∷ []) [] two_listed

abbrev post : Bytes → Reply
post path = response (record { status = 204; status_text = codes "204 No Content"; body = [] })
