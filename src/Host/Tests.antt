-- ===== src/Host/Tests.antt =====
-- Two partitions on one device.
use pc_monitor.Base.{[], ◌∷◌, List, Bool, true, not, ◌||◌, member, some, codes, All, ◌≡◌}
use pc_monitor.Provider.Registry.Routing.{Distinct}
use pc_monitor.Host.{Partition, Usage, sort_disks, disks_of}
use pc_monitor.Host.Disks.{is_shown, taken, devices, all_disks, IsSorted, disks_of-IsSorted}

abbrev parts : List Partition
parts =
    record { device = codes "/dev/sda"; mount = codes "/"; fstype = codes "ext4" }
    ∷ record { device = codes "/dev/sda"; mount = codes "/home"; fstype = codes "ext4" }
    ∷ []

abbrev usage : Usage
usage mount = some (1, 2)

disks_of-IsSorted_example :
    (bs : List Bool) × Distinct (devices (taken bs parts))
    × All (λ p. is_shown p ≡ true) (taken bs parts)
    × All (λ p. (not (is_shown p) || member p.device (devices (taken bs parts))) ≡ true) parts
    × (disks_of usage (some parts) ≡ sort_disks (all_disks usage (taken bs parts)))
    × IsSorted (disks_of usage (some parts))
disks_of-IsSorted_example = disks_of-IsSorted usage parts
