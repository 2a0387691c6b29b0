-- ===== src/Pm2/Export/Write/Atomic.antt =====
-- A write of the snapshot as those see it who read the file meanwhile.
use pc_monitor.Base.{
  false, [], Option, none, some, Bytes, bytes_eq, bytes_eq_refl, lookup, insert, delete,
  lookup-insert, lookup-delete, take, All, ◌≡◌, ◌⊎◌, inl, inr, refl, ◌∙◌,
}
use pc_monitor.Pm2.Export.Write.{
  Files, Calls, Written, removed, give_up, rename_step, chmod_step, close_step, write_step,
  create_step, marshalled, write_snapshot, last_state,
}

-- What the file holds at the end.
abbrev pub outcome : Option Bytes → Bytes → Option Bytes → Option Bytes
outcome old raw none = some raw
outcome old raw (some e) = old

-- Every state has the old or the new content at a path, and the last one has it by the error; `fs`
-- are the files before.
abbrev pub IsAtomic : Bytes → Bytes → Option Bytes → Files → Written → Type 0
IsAtomic path raw old fs w =
    All (λ s. (lookup path s ≡ old) ⊎ (lookup path s ≡ some raw)) w.states
    × (lookup path (last_state fs w.states) ≡ outcome old raw w.error)

module _ (path tmp raw : Bytes) (apart : bytes_eq tmp path ≡ false) (c : Calls) where
  insert-other : (x : Bytes) (fs : Files) → lookup path (insert tmp x fs) ≡ lookup path fs
  insert-other x fs = lookup-insert tmp path x fs ∙ rw apart refl

  removed-other : (fs : Files) (e : Option Bytes) → lookup path (removed tmp fs e) ≡ lookup path fs
  removed-other fs none = lookup-delete tmp path fs ∙ rw apart refl
  removed-other fs (some e) = refl

  module _ (old : Option Bytes) where
    give_up-IsAtomic :
        (fs gs : Files) (e : Bytes)
        → lookup path fs ≡ old
        → IsAtomic path raw old gs (give_up tmp fs c e)
    give_up-IsAtomic fs gs e h =
        ((inl (removed-other fs c.remove ∙ h), tt), removed-other fs c.remove ∙ h)

    rename-IsAtomic :
        (fs : Files) (e : Option Bytes)
        → lookup path fs ≡ old
        → IsAtomic path raw old fs (rename_step path tmp raw fs c e)
    rename-IsAtomic fs (some e) h = give_up-IsAtomic fs fs e h
    rename-IsAtomic fs none h =
        ((inr new, (inr (removed-other _ c.remove ∙ new), tt)), removed-other _ c.remove ∙ new)
      where
        new : lookup path (insert path raw (delete tmp fs)) ≡ some raw
        new = lookup-insert path path raw (delete tmp fs) ∙ rw (bytes_eq_refl path) refl

    chmod-IsAtomic :
        (fs : Files) (e : Option Bytes)
        → lookup path fs ≡ old
        → IsAtomic path raw old fs (chmod_step path tmp raw fs c e)
    chmod-IsAtomic fs (some e) h = give_up-IsAtomic fs fs e h
    chmod-IsAtomic fs none h = rename-IsAtomic fs c.rename h

    close-IsAtomic :
        (fs : Files) (e : Option Bytes)
        → lookup path fs ≡ old
        → IsAtomic path raw old fs (close_step path tmp raw fs c e)
    close-IsAtomic fs (some e) h = give_up-IsAtomic fs fs e h
    close-IsAtomic fs none h = chmod-IsAtomic fs c.chmod h

    write-IsAtomic :
        (fs : Files) (e : Option Bytes)
        → lookup path fs ≡ old
        → IsAtomic path raw old fs (write_step path tmp raw fs c e)
    write-IsAtomic fs (some e) h =
        let same : lookup path (insert tmp (take c.part raw) fs) ≡ old = insert-other _ fs ∙ h in
        let (all, end) = give_up-IsAtomic _ (insert tmp (take c.part raw) fs) e same in
        ((inl same, all), end)
    write-IsAtomic fs none h =
        let same : lookup path (insert tmp raw fs) ≡ old = insert-other raw fs ∙ h in
        let (all, end) = close-IsAtomic (insert tmp raw fs) c.close same in ((inl same, all), end)

    create-IsAtomic :
        (fs : Files) (e : Option Bytes)
        → lookup path fs ≡ old
        → IsAtomic path raw old fs (create_step path tmp raw fs c e)
    create-IsAtomic fs (some e) h = (tt, h)
    create-IsAtomic fs none h =
        let same : lookup path (insert tmp [] fs) ≡ old = insert-other [] fs ∙ h in
        let (all, end) = write-IsAtomic (insert tmp [] fs) c.write same in ((inl same, all), end)

  -- Where the new file has a name of its own, whoever reads the path after any of the calls finds
  -- what was there before or the whole new text, never a part; at the end it is the new text where
  -- no error came back, and what was there before where one did.
  pub write_snapshot-IsAtomic :
      (fs : Files)
      → IsAtomic path raw (lookup path fs) fs (write_snapshot path tmp (marshalled raw) fs c)
  unfolding write_snapshot
  write_snapshot-IsAtomic fs = create-IsAtomic (lookup path fs) fs c.create refl
