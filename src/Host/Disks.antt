-- ===== src/Host/Disks.antt =====
-- The disks that are shown.
use pc_monitor.Base.{
  Bool, true, false, not, ◌&&◌, ◌||◌, List, [], ◌∷◌, ◌++◌, map, some, Bytes, bytes_eq,
  bytes_eq_refl, member, if◌then◌else◌, All, All-map, Bool-cases, inl, inr, ◌≡◌, refl, ap, arith,
}
use pc_monitor.Provider.Registry.{bytes_less}
use pc_monitor.Provider.Registry.Routing.{Distinct}
use pc_monitor.Host.{
  Disk, Partition, real_fs, is_hidden, is_passed, Usage, disk_of, find_disks, place_disk,
  sort_disks, disks_of,
}

-- A partition worth showing: of a real file system, and not in a hidden place.
abbrev pub is_shown : Partition → Bool
is_shown p = member p.fstype real_fs && not (is_hidden p.mount)

abbrev pub devices : List Partition → List Bytes
devices ps = map (λ p. p.device) ps

-- The disks of partitions, in their order.
abbrev pub all_disks : Usage → List Partition → List Disk
all_disks usage [] = []
all_disks usage (p ∷ ps) = disk_of p.mount (usage p.mount) ++ all_disks usage ps

-- No mount comes before the one in front of it.
abbrev pub IsSorted : List Disk → Type 0
IsSorted [] = Unit {0}
IsSorted (d ∷ ds) = All (λ e. bytes_less e.mount d.mount ≡ false) ds × IsSorted ds

-- The partitions of a list that a choice takes.
abbrev pub taken : List Bool → List Partition → List Partition
taken [] ps = []
taken (b ∷ bs) [] = []
taken (b ∷ bs) (p ∷ ps) = if b then p ∷ taken bs ps else taken bs ps

-- A choice of partitions from which the disks come: of those worth showing, one for each device
-- that was not seen.
abbrev Chosen : Usage → List Bytes → List Partition → List Bool → List Disk → Type 0
Chosen usage seen parts bs ds =
    Distinct (devices (taken bs parts))
    × All (λ p. is_shown p ≡ true) (taken bs parts)
    × All (λ n. member n seen ≡ false) (devices (taken bs parts))
    × All
        (λ p.
          (not (is_shown p) || (member p.device seen || member p.device (devices (taken bs parts))))
          ≡ true)
        parts
    × (ds ≡ all_disks usage (taken bs parts))

is_passed_not :
    (seen : List Bytes) (p : Partition)
    → is_passed seen p ≡ false
    → (is_shown p ≡ true) × (member p.device seen ≡ false)
unfolding is_passed
is_passed_not seen p h =
    decided (member p.fstype real_fs) (member p.device seen) (is_hidden p.mount) h
  where
    decided : (a b c : Bool) → (not a || b || c) ≡ false → ((a && not c) ≡ true) × (b ≡ false)
    decided a b c h = ground arith

is_passed_why :
    (seen : List Bytes) (p : Partition) (ds : List Bytes)
    → is_passed seen p ≡ true
    → (not (is_shown p) || (member p.device seen || member p.device ds)) ≡ true
unfolding is_passed
is_passed_why seen p ds h =
    decided (member p.fstype real_fs) (member p.device seen) (is_hidden p.mount)
      (member p.device ds) h
  where
    decided : (a b c d : Bool) → (not a || b || c) ≡ true → (not (a && not c) || (b || d)) ≡ true
    decided a b c d h = ground arith

member_split :
    (n d : Bytes) (seen : List Bytes)
    → member n (d ∷ seen) ≡ false
    → (bytes_eq d n ≡ false) × (member n seen ≡ false)
unfolding member
member_split n d seen h = ground arith

-- A device that was seen before may as well be among those found.
member_moved :
    (b : Bool) (n d : Bytes) (seen ds : List Bytes)
    → (b || (member n (d ∷ seen) || member n ds)) ≡ true
    → (b || (member n seen || member n (d ∷ ds))) ≡ true
unfolding member
member_moved b n d seen ds h = decided b (bytes_eq d n) (member n seen) (member n ds) h
  where
    decided :
        (b e s m : Bool)
        → (b || ((if e then true else s) || m)) ≡ true
        → (b || (s || (if e then true else m))) ≡ true
    decided b e s m h = ground arith

member_first :
    (b : Bool) (n : Bytes) (seen ds : List Bytes)
    → (b || (member n seen || member n (n ∷ ds))) ≡ true
unfolding member
member_first b n seen ds = rw (bytes_eq_refl n) (decided b (member n seen))
  where
    decided : (b s : Bool) → (b || (s || true)) ≡ true
    decided b s = ground arith

find_disks-Chosen :
    (usage : Usage) (seen : List Bytes) (ps : List Partition)
    → (bs : List Bool) × Chosen usage seen ps bs (find_disks usage seen ps)
unfolding find_disks
find_disks-Chosen usage seen [] = ([], (tt, tt, tt, tt, refl))
find_disks-Chosen usage seen (p ∷ ps) = elim (Bool-cases (is_passed seen p)) [
  | inl e ↦
      let (bs, (distinct, all, unseen, full, same)) = find_disks-Chosen usage seen ps in
      (
        false ∷ bs,
        (distinct, all, unseen, (is_passed_why seen p (devices (taken bs ps)) e, full), rw e same),
      )
  | inr e ↦
      let (shown, new) = is_passed_not seen p e in
      let (bs, (distinct, all, unseen, full, same)) =
        find_disks-Chosen usage (p.device ∷ seen) ps in
      let qs : List Partition = taken bs ps in
      (
        true ∷ bs,
        (
          (All-map _ _ (devices qs) (λ n h. (member_split n p.device seen h).0) unseen, distinct),
          (shown, all),
          (new, All-map _ _ (devices qs) (λ n h. (member_split n p.device seen h).1) unseen),
          (
            member_first (not (is_shown p)) p.device seen (devices qs),
            All-map _ _ ps
                (λ q h. member_moved (not (is_shown q)) q.device p.device seen (devices qs) h) full,
          ),
          rw e (ap (λ ds. disk_of p.mount (usage p.mount) ++ ds) same),
        ),
      )
]

bytes_less-asym : (a b : Bytes) → bytes_less a b ≡ true → bytes_less b a ≡ false
unfolding bytes_less
bytes_less-asym [] [] h = refl
bytes_less-asym [] (y ∷ b) h = refl
bytes_less-asym (x ∷ a) [] h = absurd (ground (arith, h))
bytes_less-asym (x ∷ a) (y ∷ b) h = ground (arith, h, bytes_less-asym a b)

not_less_trans :
    (a b c : Bytes) → bytes_less b a ≡ false → bytes_less c b ≡ false → bytes_less c a ≡ false
unfolding bytes_less
not_less_trans [] b [] h k = refl
not_less_trans [] b (z ∷ c) h k = refl
not_less_trans (x ∷ a) [] c h k = absurd (ground (arith, h))
not_less_trans (x ∷ a) (y ∷ b) [] h k = absurd (ground (arith, k))
not_less_trans (x ∷ a) (y ∷ b) (z ∷ c) h k = ground (arith, h, k, not_less_trans a b c)

All-place_disk :
    (P : Disk → Type 0) (d : Disk) (ds : List Disk) → P d → All P ds → All P (place_disk d ds)
unfolding place_disk
All-place_disk P d [] h hs = (h, tt)
All-place_disk P d (e ∷ es) h (k, ks) = elim (Bool-cases (bytes_less e.mount d.mount)) [
  | inl l ↦ rw l (k, All-place_disk P d es h ks)
  | inr l ↦ rw l (h, (k, ks))
]

place_disk-IsSorted : (d : Disk) (ds : List Disk) → IsSorted ds → IsSorted (place_disk d ds)
unfolding place_disk
place_disk-IsSorted d [] h = (tt, tt)
place_disk-IsSorted d (e ∷ es) (first, h) = elim (Bool-cases (bytes_less e.mount d.mount)) [
  | inl l ↦ rw l (
    All-place_disk (λ x. bytes_less x.mount e.mount ≡ false) d es
        (bytes_less-asym e.mount d.mount l) first,
    place_disk-IsSorted d es h,
  )
  | inr l ↦
      rw l
        ((l, All-map _ _ es (λ x k. not_less_trans d.mount e.mount x.mount l k) first), (first, h))
]

sort_disks-IsSorted : (ds : List Disk) → IsSorted (sort_disks ds)
unfolding sort_disks
sort_disks-IsSorted [] = tt
sort_disks-IsSorted (d ∷ ds) = place_disk-IsSorted d (sort_disks ds) (sort_disks-IsSorted ds)

-- Of the partitions that are listed, those whose disks are shown have real file systems, stand in
-- no hidden place and are on different devices, and each device with such a partition is among
-- them; the disks are those of them that have a size, sorted by mount.
pub disks_of-IsSorted :
    (usage : Usage) (parts : List Partition)
    → (bs : List Bool) × Distinct (devices (taken bs parts))
      × All (λ p. is_shown p ≡ true) (taken bs parts)
      × All (λ p. (not (is_shown p) || member p.device (devices (taken bs parts))) ≡ true) parts
      × (disks_of usage (some parts) ≡ sort_disks (all_disks usage (taken bs parts)))
      × IsSorted (disks_of usage (some parts))
unfolding disks_of member
disks_of-IsSorted usage parts =
    let (bs, (distinct, all, _, full, same)) = find_disks-Chosen usage [] parts in
    (bs, distinct, all, full, ap sort_disks same, sort_disks-IsSorted (find_disks usage [] parts))
