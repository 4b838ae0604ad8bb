-- ===== src/Fs/Delete.antt =====
-- What `fs_delete` does.
use team_otw_os_labs.Base.{
  ℕ, ◌<◌, ◌≡◌, ◌≢◌, ◌⊎◌, refl, sym, ◌∙◌, true, false, List, ok, length, load, set, get_or, arith,
  inl, inr, load-set_ne, length-set,
}
use team_otw_os_labs.Disk.{Host}
use team_otw_os_labs.Fs.State.{FileMeta, Fs}
use team_otw_os_labs.Fs.Files.{fs_delete}
use team_otw_os_labs.Fs.Open.{guard-active, store-set, load-set}
use team_otw_os_labs.Fs.Cut.{saved, save_runs}
use team_otw_os_labs.Fs.Slots.{
  NoneBefore, is_used, nothing, first, used_loop-FirstFile, rounds_small, index_of, clear_loop_lem,
}
use team_otw_os_labs.Fs.Invariant.{IsSound, change-IsSound}

-- The slot of `f`, which is given back.
abbrev pub unused : FileMeta → FileMeta
unused f = record f { in_use = 0 }

module _ (host : Host) where
  -- The file system without the file `n`, and with the table `u`.
  abbrev pub deleted : List ℕ → ℕ → FileMeta → List ℕ → Fs host → Fs host
  deleted junk n f u fs = record fs {
    disk = saved host junk n (unused f) fs.disk;
    usage = u;
    file_metas = set fs.file_metas n (unused f);
  }

  -- The table after the blocks of `f` are free, which is as it was at every other place.
  pub record Frees (f : FileMeta) (usage u : List ℕ) : Type 0 where
    pub size_same : length u ≡ 4096
    pub cleared : (k : ℕ) → k < f.num_blocks → get_or u (index_of f k) 0 ≡ 0
    pub others :
        (j : ℕ) → ((k : ℕ) → k < f.num_blocks → j ≢ index_of f k) → get_or u j 0 ≡ get_or usage j 0

  deleted-IsSound :
      (junk : List ℕ) (n : ℕ) (f : FileMeta) (u : List ℕ) (fs : Fs host)
      → IsSound fs.file_metas fs.usage
      → load fs.file_metas n ≡ ok f
      → f.in_use ≢ 0
      → Frees f fs.usage u
      → IsSound (deleted junk n f u fs).file_metas u
  deleted-IsSound junk n f u fs s here used frees =
      change-IsSound fs.file_metas (set fs.file_metas n (unused f)) fs.usage u s n (unused f)
        (load-set fs.file_metas n (unused f) f here) (λ m ne. load-set_ne fs.file_metas n m _ ne)
        (length-set fs.file_metas n _) frees.size_same (s.rooms n f here) (λ ne. absurd (ne refl))
        (λ ne. absurd (ne refl))
        (λ m g ne at in_use k h e.
          s.marked m g at in_use k h
            (sym (frees.others (index_of g k) (apart_index m g ne at in_use k h)) ∙ e))
        (λ m g ne at u0. absurd (u0 refl))
    where
      apart_index :
          (m : ℕ) (g : FileMeta)
          → m ≢ n
          → load fs.file_metas m ≡ ok g
          → g.in_use ≢ 0
          → (k : ℕ) → k < g.num_blocks
          → (k' : ℕ) → k' < f.num_blocks
          → index_of g k ≢ index_of f k'
      apart_index m g ne at in_use k h k' h' e =
          let low = ((s.laid_out m g at in_use).in_data k h).0 in
          let low' = ((s.laid_out n f here used).in_data k' h').0 in
          s.apart m n g f ne at here in_use used k k' h h' (omega arith)

  -- On a mounted, sound file system fs_delete fails and changes nothing where no slot is in use.
  -- Otherwise it marks the first slot in use as unused, whatever the name, saves its metadata,
  -- frees the blocks of that file in the table and no other, and leaves the file system sound.
  pub fs_delete_lem :
      (junk name : List ℕ) (fs : Fs host)
      → fs.disk.active ≡ true
      → IsSound fs.file_metas fs.usage
      → (NoneBefore is_used fs.file_metas 64 × (fs_delete host junk name fs ≡ ok (false, fs)))
        ⊎ ((n : ℕ) × (f : FileMeta) × (u : List ℕ) × (load fs.file_metas n ≡ ok f)
            × (f.in_use ≢ 0)
            × NoneBefore is_used fs.file_metas n
            × (fs_delete host junk name fs ≡ ok (true, deleted junk n f u fs))
            × Frees f fs.usage u
            × IsSound (deleted junk n f u fs).file_metas (deleted junk n f u fs).usage)
  unfolding fs_delete
  fs_delete_lem junk name fs act s =
      elim (used_loop-FirstFile 64 0 fs.file_metas (omega (arith, s.files))
        (λ j g h. absurd (omega arith))) [
          | nothing e none_left ↦
              inl (λ j g h. none_left j g (omega (arith, s.files)), guard-active _ act ∙ rw e)
          | first n f e here used before ↦
              let in_use : f.in_use ≢ 0 = ground arith in
              let l = s.laid_out n f here in_use in
              let (u, runs, table, cleared, others) =
                clear_loop_lem f l f.num_blocks 0 fs.usage (omega arith) s.table in
              let frees : Frees f fs.usage u = record {
                size_same = table;
                cleared = λ k h. cleared k (omega arith) h;
                others = λ j other. others j (λ k low h. other k h);
              } in
              inr (
                n,
                f,
                u,
                here,
                in_use,
                before,
                guard-active _ act
                    ∙ rw (
                      e,
                      here,
                      store-set fs.file_metas n (unused f) f here,
                      rounds_small f.num_blocks l.few,
                      runs,
                      save_runs host junk n
                          (record fs { usage = u; file_metas = set fs.file_metas n (unused f) })
                          (unused f) act (load-set fs.file_metas n (unused f) f here),
                    ),
                frees,
                deleted-IsSound junk n f u fs s here in_use frees,
              )
        ]
