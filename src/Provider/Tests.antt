-- ===== src/Provider/Tests.antt =====
-- The theorems on the log ring, at a full ring of two lines.
use pc_monitor.Base.{ℕ, ◌∷◌, [], List, false, some, codes, length, ◌≡◌, last_n, arith}
use pc_monitor.Base.Int.{ℤ, pos}
use pc_monitor.Provider.{LogLine}
use pc_monitor.Provider.Ring.{Ring, new_ring, last}
use pc_monitor.Provider.Ring.Refine.{IsValid, push_all, wanted, last_refines}

abbrev line : ℕ → LogLine
line t = record { t = pos t; err = false; text = codes "x" }

abbrev full_ring : Ring
full_ring = record { buf = line 3 ∷ line 2 ∷ []; start = 1; n = 2 }

full_ring-IsValid : IsValid full_ring
unfolding length
full_ring-IsValid = record { room = omega arith; start_in = omega arith; fits = omega arith }

abbrev three : List LogLine
three = line 1 ∷ line 2 ∷ line 3 ∷ []

last_refines_example :
    (r : Ring) × (push_all (new_ring 2) three ≡ some r)
    × ((k : ℤ) → last r k ≡ last_n (wanted 2 k) (last_n 2 three))
last_refines_example = last_refines 2 three (omega arith)
