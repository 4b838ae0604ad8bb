-- ===== src/Fs/Keeps.antt =====
-- The calls that change neither the files nor the table: `fs_open`, `fs_close`, `fs_lseek`, `fs_read`.
use team_otw_os_labs.Base.{
  ℕ, zero, suc, ◌≡◌, refl, ap, Bool-cases, inl, inr, ◌∙◌, Bool, true, false, not, List, [], Run, ok,
  fault, out_of_fuel, ◌>>=◌, Option, none, some, After, After->>=, After-ok, load, store, arith,
  if◌then◌else◌, ◌||◌, ◌==◌, lt_int, rem_int, sub_int, to_char, add_int, drop, to_size, int_of_char,
  int_of_short, div_int,
}
use team_otw_os_labs.Disk.{Host, Disk, block_read, block_size, out_of_bounds}
use team_otw_os_labs.Fs.Content.{Faithful, block_of}
use team_otw_os_labs.Fs.State.{Descriptor, Fs}
use team_otw_os_labs.Fs.Files.{
  fs_open, fs_close, fs_lseek, fs_get_filesize, file_loop, slot_loop, read_bytes,
}
use team_otw_os_labs.Fs.Transfer.{Reading, read_round, read_loop, fs_read, cap}

module _ (host : Host) (faith : Faithful host) where
  -- `fs1` has the files, the table and the blocks of `fs`, and is mounted if `fs` is.
  abbrev pub Same : Fs host → Fs host → Type 0
  Same fs fs1 =
      (fs1.disk.active ≡ fs.disk.active)
      × (fs1.file_metas ≡ fs.file_metas)
      × (fs1.usage ≡ fs.usage)
      × ((b : ℕ) → block_of host faith fs1.disk b ≡ block_of host faith fs.disk b)

  -- Not even the disk changes.
  Still : Fs host → Fs host → Type 0
  Still fs fs1 = (fs1.disk ≡ fs.disk) × (fs1.file_metas ≡ fs.file_metas) × (fs1.usage ≡ fs.usage)

  Still-Same : (fs fs1 : Fs host) → Still fs fs1 → Same fs fs1
  unfolding Still
  Still-Same fs fs1 h =
      (ap (λ d. d.active) h.0, h.1, h.2, λ b. ap (λ d. block_of host faith d b) h.0)

  After-ite :
      {A : Type 0} (P : A → Type 0) (b : Bool) (x y : Run A)
      → After P x
      → After P y
      → After P (if b then x else y)
  After-ite P true x y h k = h
  After-ite P false x y h k = k

  After-map :
      {A : Type 0} (P Q : A → Type 0) (r : Run A) → ((a : A) → P a → Q a) → After P r → After Q r
  After-map P Q (ok a) f h = f a h
  After-map P Q fault f h = h
  After-map P Q out_of_fuel f h = h

  block_read-active :
      (b : ℕ) (buf : List ℕ) (d : Disk host) → (block_read host b buf d).2.active ≡ d.active
  unfolding block_read
  block_read-active b buf d = ground arith

  read_blocks :
      (r : Option (List ℕ)) (buf : List ℕ) (c : ℕ) (w w1 : host.World) (h : ℕ) (b : Bool)
      → faith.contents w1 h c ≡ faith.contents w h c
      → block_of host faith
          (elim r as (λ _. Bool × List ℕ × Disk host) [
            | none ↦ (false, buf, record { world = w1; handle = h; active = b })
            | some bytes ↦ (true, bytes, record { world = w1; handle = h; active = b })
          ]).2
          c
        ≡ faith.contents w h c
  read_blocks none buf c w w1 h b same = same
  read_blocks (some bytes) buf c w w1 h b same = same

  block_read-blocks :
      (b c : ℕ) (buf : List ℕ) (d : Disk host)
      → block_of host faith (block_read host b buf d).2 c ≡ block_of host faith d c
  unfolding block_read
  block_read-blocks b c buf d = elim (Bool-cases d.active) [
    | inr e ↦ rw e refl
    | inl e ↦ elim (Bool-cases (out_of_bounds b)) [
      | inl e' ↦ rw (e, e') refl
      | inr e' ↦
          rw (e, e')
            (read_blocks (host.read_at d.handle b d.world).0 buf c d.world _ d.handle d.active
              (faith.reads_keep d.world d.handle b c))
    ]
  ]

  fs_close-Still : (i : ℕ) (fs : Fs host) → After (λ r. Still fs r.1) (fs_close host i fs)
  unfolding fs_close Still
  fs_close-Still i fs = ground arith

  pub fs_close-Same : (i : ℕ) (fs : Fs host) → After (λ r. Same fs r.1) (fs_close host i fs)
  fs_close-Same i fs =
      After-map (λ r. Still fs r.1) (λ r. Same fs r.1) _ (λ r. Still-Same fs r.1)
        (fs_close-Still i fs)

  fs_lseek-Still : (i o : ℕ) (fs : Fs host) → After (λ r. Still fs r.1) (fs_lseek host i o fs)
  unfolding fs_lseek Still
  fs_lseek-Still i o fs = ground arith

  pub fs_lseek-Same : (i o : ℕ) (fs : Fs host) → After (λ r. Same fs r.1) (fs_lseek host i o fs)
  fs_lseek-Same i o fs =
      After-map (λ r. Still fs r.1) (λ r. Same fs r.1) _ (λ r. Still-Same fs r.1)
        (fs_lseek-Still i o fs)

  Same-trans : (a b c : Fs host) → Same a b → Same b c → Same a c
  Same-trans a b c h k = (k.0 ∙ h.0, k.1 ∙ h.1, k.2 ∙ h.2, λ x. k.3 x ∙ h.3 x)

  read_round-Same :
      (i offset dist : ℕ) (d : Descriptor) (r : Reading host)
      → After (λ r1. Same r.fs r1.fs) (read_round host i offset dist d r)
  unfolding read_round
  read_round-Same i offset dist d r =
      let P : Reading host → Type 0 = λ r1. Same r.fs r1.fs in
      After->>= P (load r.fs.file_metas (int_of_char d.file)) _ (λ f _.
        After->>= P (load f.blocks (div_int d.cursor 4096)) _ (λ block _.
          let bytes = (block_read host (int_of_short block) r.bytes r.fs.disk).1 in
          After->>= P (read_bytes (to_size (cap r.nbyte dist)) (drop offset bytes)) _ (λ piece _.
            After->>= P
              (store r.fs.descriptors i (record d { cursor = add_int d.cursor (cap r.nbyte dist) }))
              _
              (λ ds _. (
                block_read-active (int_of_short block) r.bytes r.fs.disk,
                refl,
                refl,
                λ b. block_read-blocks (int_of_short block) b r.bytes r.fs.disk,
              )))))

  read_loop-Same :
      (fuel i : ℕ) (r : Reading host) → After (λ r1. Same r.fs r1.fs) (read_loop host fuel i r)
  unfolding read_loop
  read_loop-Same zero i r = tt
  read_loop-Same (suc fuel) i r =
      let P : Reading host → Type 0 = λ r1. Same r.fs r1.fs in
      let stay : Same r.fs r.fs = (refl, refl, refl, λ b. refl) in
      let turn : (offset dist : ℕ) (d : Descriptor)
          → After P (read_round host i offset dist d r >>= read_loop host fuel i) =
        λ offset dist d.
          After->>= P (read_round host i offset dist d r) (read_loop host fuel i) (λ r1 e.
            After-map _ P _
              (λ r2.
                Same-trans r.fs r1.fs r2.fs
                  (After-ok (λ r1. Same r.fs r1.fs) e (read_round-Same i offset dist d r)))
              (read_loop-Same fuel i r1)) in
      After->>= P (load r.fs.descriptors i) _ (λ d _.
        After->>= P (fs_get_filesize host i r.fs) _ (λ size _.
          let offset = rem_int d.cursor block_size in
          let room = sub_int block_size offset in
          let left = sub_int size d.cursor in
          After-ite P (not (lt_int d.cursor size) || r.nbyte == 0) (ok r) _ stay (
            After-ite P (lt_int left room) _
              (read_round host i offset room d r >>= read_loop host fuel i)
              (After-ite P (left == 0) (ok r)
                (read_round host i offset left d r >>= read_loop host fuel i) stay
                (turn offset left d))
              (turn offset room d))))

  pub fs_read-Same :
      (junk : List ℕ) (i n : ℕ) (fs : Fs host) → After (λ r. Same fs r.2) (fs_read host junk i n fs)
  unfolding fs_read
  fs_read-Same junk i n fs =
      After-ite (λ r. Same fs r.2) (not fs.disk.active) (ok (none, [], fs)) _
        (refl, refl, refl, λ b. refl)
        (After->>= (λ r. Same fs r.2) (read_loop host (suc n) i _) _
          (λ r e. After-ok (λ r1. Same fs r1.fs) e (read_loop-Same (suc n) i _)))

  slot_found :
      (fs : Fs host) (n : ℕ) (slot : Option ℕ)
      → After
          (λ r. Same fs r.1)
          (elim slot as (λ _. Run (Option ℕ × Fs host)) [
            | none ↦ ok (none, fs)
            | some i ↦ store fs.descriptors i (record { file = to_char n; cursor = 0 }) >>= λ ds.
                ok (some i, record fs { descriptors = ds })
          ])
  slot_found fs n none = (refl, refl, refl, λ b. refl)
  slot_found fs n (some i) =
      After->>= (λ r. Same fs r.1) (store fs.descriptors i _) _
        (λ ds _. (refl, refl, refl, λ b. refl))

  file_found :
      (fs : Fs host) (file_num : Option ℕ) (slots : Run (Option ℕ))
      → After
          (λ r. Same fs r.1)
          (elim file_num as (λ _. Run (Option ℕ × Fs host)) [
            | none ↦ ok (none, fs)
            | some n ↦ slots >>= λ slot. elim slot [
              | none ↦ ok (none, fs)
              | some i ↦ store fs.descriptors i (record { file = to_char n; cursor = 0 }) >>= λ ds.
                  ok (some i, record fs { descriptors = ds })
            ]
          ])
  file_found fs none slots = (refl, refl, refl, λ b. refl)
  file_found fs (some n) slots =
      After->>= (λ r. Same fs r.1) slots _ (λ slot _. slot_found fs n slot)

  pub fs_open-Same :
      (name : List ℕ) (fs : Fs host) → After (λ r. Same fs r.1) (fs_open host name fs)
  unfolding fs_open
  fs_open-Same name fs =
      After-ite (λ r. Same fs r.1) (not fs.disk.active) (ok (none, fs)) _
        (refl, refl, refl, λ b. refl)
        (After->>= (λ r. Same fs r.1) (file_loop 64 0 fs.file_metas name) _
          (λ file_num _. file_found fs file_num (slot_loop 32 0 fs.descriptors)))
