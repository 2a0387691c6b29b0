-- ===== src/Host.antt =====
-- agent/internal/host/host.go: the figures of the machine. What gopsutil answers and the clock are
-- arguments, `none` is an error of a call; the numbers of floating point are a parameter.
pub mod Disks
mod Tests
use pc_monitor.Base.{
  ℕ, ◌+◌, ◌-◌, ◌*◌, ◌/◌, ◌%◌, ◌^◌, Bool, true, false, not, ◌&&◌, ◌||◌, List, [], ◌∷◌, ◌++◌, map,
  Option, none, some, Bytes, codes, bytes_eq, cut_prefix, is_some, member, length, ltb, leb, ◌==◌,
  if◌then◌else◌,
}
use pc_monitor.Provider.Registry.{bytes_less}
use pc_monitor.Pm2.Names.{contains_text}

-- `float64`
pub record Floats : Type 1 where
  pub F : Type 0
  pub of_ℕ : ℕ → F
  pub plus : F → F → F
  pub over : F → F → F
  pub above : F → F → Bool

pub record Disk : Type 0 where
  pub mount : Bytes
  pub used : ℕ
  pub total : ℕ

pub record Partition : Type 0 where
  pub device : Bytes
  pub mount : Bytes
  pub fstype : Bytes

-- The counters of a network interface.
pub record Counter : Type 0 where
  pub name : Bytes
  pub received : ℕ
  pub sent : ℕ

abbrev pub real_fs : List Bytes
real_fs =
    codes "ext2"
    ∷ codes "ext3"
    ∷ codes "ext4"
    ∷ codes "xfs"
    ∷ codes "btrfs"
    ∷ codes "zfs"
    ∷ codes "f2fs"
    ∷ codes "ntfs"
    ∷ codes "NTFS"
    ∷ []

abbrev pub has_prefix : Bytes → Bytes → Bool
has_prefix p s = is_some (cut_prefix p s)

-- Places that are not worth showing.
unfoldable pub is_hidden : Bytes → Bool
is_hidden mount =
    has_prefix (codes "/boot") mount
    || has_prefix (codes "/snap") mount
    || contains_text (codes "/docker/") mount

unfoldable pub is_passed : List Bytes → Partition → Bool
is_passed seen p = not (member p.fstype real_fs) || member p.device seen || is_hidden p.mount

-- The usage of a place: used and total.
abbrev pub Usage : Type 0
Usage = Bytes → Option (ℕ × ℕ)

abbrev pub disk_of : Bytes → Option (ℕ × ℕ) → List Disk
disk_of mount none = []
disk_of mount (some (used, total)) =
    if ltb 0 total then record { mount = mount; used = used; total = total } ∷ [] else []

-- The loop over the partitions; a device counts as seen even where its usage can't be read.
unfoldable pub find_disks : Usage → List Bytes → List Partition → List Disk
find_disks usage seen [] = []
find_disks usage seen (p ∷ ps) =
    let rest = find_disks usage (if is_passed seen p then seen else p.device ∷ seen) ps in
    if is_passed seen p then rest else disk_of p.mount (usage p.mount) ++ rest

unfoldable pub place_disk : Disk → List Disk → List Disk
place_disk d [] = d ∷ []
place_disk d (e ∷ es) = if bytes_less e.mount d.mount then e ∷ place_disk d es else d ∷ e ∷ es

-- `sort.Slice` by mount. Of equal mounts the order is open in the source.
unfoldable pub sort_disks : List Disk → List Disk
sort_disks [] = []
sort_disks (d ∷ ds) = place_disk d (sort_disks ds)

unfoldable pub disks_of : Usage → Option (List Partition) → List Disk
disks_of usage none = []
disks_of usage (some ps) = sort_disks (find_disks usage [] ps)

unfoldable pub is_inner : Bytes → Bool
is_inner name =
    bytes_eq name (codes "lo")
    || has_prefix (codes "veth") name
    || has_prefix (codes "docker") name
    || has_prefix (codes "br-") name
    || has_prefix (codes "pterodactyl") name

-- The sums of the outer interfaces, on `uint64`.
unfoldable pub add_counters : ℕ → ℕ → List Counter → ℕ × ℕ
add_counters rx tx [] = (rx, tx)
add_counters rx tx (c ∷ cs) =
    if is_inner c.name
    then add_counters rx tx cs
    else add_counters ((rx + c.received) % 2 ^ 64) ((tx + c.sent) % 2 ^ 64) cs

-- `System`: when and what the counters were; before the first sample there is nothing.
pub record System : Type 0 where
  pub last : Option (ℕ × ℕ × ℕ)

abbrev pub new_system : System
new_system = record { last = none }

module _ (fl : Floats) where
  -- Nanoseconds as seconds.
  abbrev pub seconds : ℕ → fl.F
  seconds ns = fl.over (fl.of_ℕ ns) (fl.of_ℕ 1000000000)

  -- The rates since the last sample, or none where a counter went back.
  unfoldable pub rates : Option (ℕ × ℕ × ℕ) → ℕ → ℕ → ℕ → fl.F × fl.F
  rates none now rx tx = (fl.of_ℕ 0, fl.of_ℕ 0)
  rates (some (last, last_rx, last_tx)) now rx tx =
      if leb last_rx rx && leb last_tx tx
      then (
        fl.over (fl.of_ℕ (rx - last_rx)) (seconds (now - last)),
        fl.over (fl.of_ℕ (tx - last_tx)) (seconds (now - last)),
      )
      else (fl.of_ℕ 0, fl.of_ℕ 0)

  unfoldable pub sample_net : System → ℕ → Option (List Counter) → (fl.F × fl.F) × System
  sample_net s now none = ((fl.of_ℕ 0, fl.of_ℕ 0), s)
  sample_net s now (some cs) =
      let (rx, tx) = add_counters 0 0 cs in
      (rates s.last now rx tx, record { last = some (now, rx, tx) })

  unfoldable pub sum : fl.F → List fl.F → fl.F
  sum acc [] = acc
  sum acc (x ∷ xs) = sum (fl.plus acc x) xs

  -- The mean of the cores, and the cores.
  unfoldable pub cpu_of : Option (List fl.F) → fl.F × List fl.F
  cpu_of none = (fl.of_ℕ 0, [])
  cpu_of (some []) = (fl.of_ℕ 0, [])
  cpu_of (some (c ∷ cs)) = (fl.over (sum (fl.of_ℕ 0) (c ∷ cs)) (fl.of_ℕ (length (c ∷ cs))), c ∷ cs)

  -- The hottest sensor that is believed.
  unfoldable pub hottest : fl.F → List fl.F → fl.F
  hottest h [] = h
  hottest h (t ∷ ts) = hottest (if fl.above t h && fl.above (fl.of_ℕ 125) t then t else h) ts

  abbrev pub temp_of : Option (List fl.F) → Option fl.F
  temp_of none = none
  temp_of (some ts) =
      let h = hottest (fl.of_ℕ 0) ts in if fl.above h (fl.of_ℕ 0) then some h else none

  -- `vm.Total - vm.Available` on `uint64`
  unfoldable pub mem_used : ℕ → ℕ → ℕ
  mem_used total available = (total + 2 ^ 64 - available) % 2 ^ 64

  pub record Stats : Type 0 where
    pub t : ℕ
    pub uptime : ℕ
    pub load : List fl.F
    pub cpu : fl.F
    pub cores : List fl.F
    pub mem : ℕ × ℕ
    pub swap : ℕ × ℕ
    pub disks : List Disk
    pub net : fl.F × fl.F
    pub temp : Option fl.F

  -- What gopsutil answers: memory as total and available, swap as used and total.
  pub record Machine : Type 0 where
    pub now : ℕ
    pub cores : Option (List fl.F)
    pub memory : Option (ℕ × ℕ)
    pub swap : Option (ℕ × ℕ)
    pub uptime : Option ℕ
    pub load : Option (List fl.F)
    pub partitions : Option (List Partition)
    pub usage : Usage
    pub counters : Option (List Counter)
    pub temps : Option (List fl.F)

  abbrev pub mem_of : Option (ℕ × ℕ) → ℕ × ℕ
  mem_of none = (0, 0)
  mem_of (some (total, available)) = (mem_used total available, total)

  abbrev pub or_zero : Option ℕ → ℕ
  or_zero none = 0
  or_zero (some n) = n

  abbrev pub pair_of : Option (ℕ × ℕ) → ℕ × ℕ
  pair_of none = (0, 0)
  pair_of (some p) = p

  abbrev pub load_of : Option (List fl.F) → List fl.F
  load_of none = []
  load_of (some l) = l

  -- `Collect`, with `t` in milliseconds.
  unfoldable pub collect : System → Machine → Stats × System
  collect s m =
      let (net, s') = sample_net s m.now m.counters in
      let (cpu, cores) = cpu_of m.cores in
      (
        record {
          t = m.now / 1000000;
          uptime = or_zero m.uptime;
          load = load_of m.load;
          cpu = cpu;
          cores = cores;
          mem = mem_of m.memory;
          swap = pair_of m.swap;
          disks = disks_of m.usage m.partitions;
          net = net;
          temp = temp_of m.temps;
        },
        s',
      )
