-- ===== src/Fs/Open.antt =====
-- An open descriptor: what `fs_get_filesize`, `fs_lseek` and `fs_close` do with it.
use team_otw_os_labs.Base.{
  ℕ, zero, suc, ◌^◌, ◌<◌, ◌≡◌, List, [], ◌∷◌, Bool, not, ◌==◌, if◌then◌else◌, leb, ok, load, store,
  set, true, false, refl, ap, ◌∙◌, int_of_char, lt_long, to_size, to_int, IsSmall, arith, ◌||◌,
  leb→le, to_int_small,
}
use team_otw_os_labs.Disk.{Host}
use team_otw_os_labs.Fs.State.{FileMeta, Descriptor, Fs, no_file}
use team_otw_os_labs.Fs.Files.{file_size, fs_get_filesize, fs_lseek}

pub store-set :
    {A : Type 0} (xs : List A) (i : ℕ) (v w : A) → load xs i ≡ ok w → store xs i v ≡ ok (set xs i v)
unfolding load store
store-set [] i v w h = cc
store-set (x ∷ xs) zero v w h = refl
store-set (x ∷ xs) (suc i) v w h = rw (store-set xs i v w h)

pub load-set :
    {A : Type 0} (xs : List A) (i : ℕ) (v w : A) → load xs i ≡ ok w → load (set xs i v) i ≡ ok v
unfolding load
load-set [] i v w h = cc
load-set (x ∷ xs) zero v w h = refl
load-set (x ∷ xs) (suc i) v w h = load-set xs i v w h

past :
    (offset size : ℕ)
    → offset < 2 ^ 64
    → IsSmall size
    → (lt_long offset 0 || lt_long (to_size size) offset) ≡ not (leb offset size)
unfolding lt_long to_size
past offset size h k = ground arith

-- The guard `active == 0` of a mounted file system.
pub guard-active : {A : Type 0} {b : Bool} (x : A) {y : A} → b ≡ true → (if not b then x else y) ≡ y
guard-active x e = rw e

branches :
    {A : Type 0} (b : Bool) {x x' : A} (y : A)
    → (b ≡ true → x ≡ x')
    → (if not b then ok y else ok x) ≡ ok (if b then x' else y)
branches true y h = ap ok (h refl)
branches false y h = refl

module _ (host : Host) where
  -- `i` is an open descriptor `d` of a mounted file system, and `f` is its file.
  pub record IsOpen (fs : Fs host) (i : ℕ) (d : Descriptor) (f : FileMeta) : Type 0 where
    pub mounted : fs.disk.active ≡ true
    pub found : load fs.descriptors i ≡ ok d
    pub taken : (d.file == no_file) ≡ false
    pub has_file : load fs.file_metas (int_of_char d.file) ≡ ok f

  module _ (fs : Fs host) (i : ℕ) (d : Descriptor) (f : FileMeta) (o : IsOpen fs i d f) where
    pub filesize_open : fs_get_filesize host i fs ≡ ok (file_size f)
    unfolding fs_get_filesize
    filesize_open = rw (o.mounted, o.found, o.taken, o.has_file)

    -- On an open descriptor of a file whose size is not negative, `fs_lseek` moves the cursor to an
    -- offset of at most the size, and refuses every other one, a negative one too, without a
    -- change.
    pub fs_lseek_lem :
        (offset : ℕ)
        → offset < 2 ^ 64
        → IsSmall (file_size f)
        → fs_lseek host i offset fs
          ≡ ok (
              if leb offset (file_size f)
              then (
                true,
                record fs { descriptors = set fs.descriptors i (record d { cursor = offset }) },
              )
              else (false, fs))
    unfolding fs_lseek
    fs_lseek_lem offset h k =
        guard-active _ o.mounted
        ∙ rw
            (
              filesize_open,
              o.found,
              o.taken,
              past offset (file_size f) h k,
              store-set fs.descriptors i (record d { cursor = to_int offset }) d o.found,
            )
            (branches (leb offset (file_size f)) (false, fs)
              (λ e.
                ap
                  (λ c. (
                    true,
                    record fs { descriptors = set fs.descriptors i (record d { cursor = c }) },
                  ))
                  (to_int_small offset (small e))))
      where
        small : leb offset (file_size f) ≡ true → IsSmall offset
        small e = let le = leb→le offset (file_size f) e in omega arith
