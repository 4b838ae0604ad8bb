-- ===== src/Fs/Search.antt =====
-- The loops of `fs_open`, and the descriptor that it gives.
use team_otw_os_labs.Base.{
  ℕ, zero, suc, ◌+◌, ◌<◌, ◌≤◌, ◌≡◌, List, Bool, ◌==◌, Run, ok, load, set, true, false, ◌∙◌,
  int_of_char, to_char, arith, some, ok-injective,
}
use team_otw_os_labs.Disk.{Host}
use team_otw_os_labs.Fs.State.{FileMeta, Descriptor, Fs, no_file}
use team_otw_os_labs.Fs.Files.{is_named, file_loop, slot_loop, fs_open}
use team_otw_os_labs.Fs.Open.{IsOpen, guard-active, store-set, load-set}

-- `k` is the first index of `xs`, from `i` on, at which the test is true.
abbrev pub IsFirst : {A : Type 0} → (A → Run Bool) → List A → ℕ → ℕ → A → Type 0
IsFirst {A} test xs i k a =
    (load xs k ≡ ok a)
    × (test a ≡ ok true)
    × ((j : ℕ) → i ≤ j → j < k → (b : A) × (load xs j ≡ ok b) × (test b ≡ ok false))

module _ (name : List ℕ) (metas : List FileMeta) (k : ℕ) (f : FileMeta) where
  file_loop_from :
      (left n : ℕ)
      → n < left
      → (i : ℕ) → i + n ≡ k
      → IsFirst (is_named name) metas i k f
      → file_loop left i metas name ≡ ok (some k)
  unfolding file_loop
  file_loop_from zero n h i e p = absurd (omega arith)
  file_loop_from (suc left) zero h i e p = let at : i ≡ k = omega arith in rw (at, p.0, p.1)
  file_loop_from (suc left) (suc n) h i e p =
      let (g, here, other) = p.2 i (omega arith) (omega arith) in
      rw (
        here,
        other,
        file_loop_from left n (omega arith) (suc i) (omega arith)
            (p.0, p.1, λ j l. p.2 j (omega arith)),
      )

abbrev pub is_free : Descriptor → Run Bool
is_free d = ok (d.file == no_file)

module _ (ds : List Descriptor) (k : ℕ) (d : Descriptor) where
  slot_loop_from :
      (left n : ℕ)
      → n < left
      → (i : ℕ) → i + n ≡ k
      → IsFirst is_free ds i k d
      → slot_loop left i ds ≡ ok (some k)
  unfolding slot_loop
  slot_loop_from zero n h i e p = absurd (omega arith)
  slot_loop_from (suc left) zero h i e p =
      let at : i ≡ k = omega arith in rw (at, p.0, ok-injective p.1)
  slot_loop_from (suc left) (suc n) h i e p =
      let (g, here, other) = p.2 i (omega arith) (omega arith) in
      rw (
        here,
        ok-injective other,
        slot_loop_from left n (omega arith) (suc i) (omega arith)
            (p.0, p.1, λ j l. p.2 j (omega arith)),
      )

char_file : (n : ℕ) → n < 64 → int_of_char (to_char n) ≡ n
unfolding int_of_char to_char
char_file n h = ground arith

char_taken : (n : ℕ) → n < 64 → (to_char n == no_file) ≡ false
unfolding to_char
char_taken n h = ground arith

-- On a mounted file system where the file `k` is the first one in use with the name, and `i` is
-- the first free descriptor, `fs_open` returns `i`, which is then open for that file with its
-- cursor at the start.
pub fs_open_lem :
    (host : Host) (fs : Fs host) (name : List ℕ) (k : ℕ) (f : FileMeta) (i : ℕ) (d : Descriptor)
    → fs.disk.active ≡ true
    → k < 64
    → IsFirst (is_named name) fs.file_metas 0 k f
    → i < 32
    → IsFirst is_free fs.descriptors 0 i d
    → (fs1 : Fs host) × (fs_open host name fs ≡ ok (some i, fs1))
      × IsOpen host fs1 i (record { file = to_char k; cursor = 0 }) f
unfolding fs_open
fs_open_lem host fs name k f i d active hk pk hi pi = (
  fs1,
  guard-active _ active
      ∙ rw (
        file_loop_from name fs.file_metas k f 64 k hk 0 (omega arith) pk,
        slot_loop_from fs.descriptors i d 32 i hi 0 (omega arith) pi,
        store-set fs.descriptors i fresh d pi.0,
      ),
  record {
    mounted = active;
    found = load-set fs.descriptors i fresh d pi.0;
    taken = char_taken k hk;
    has_file = rw (char_file k hk) pk.0;
  },
)
  where
    fresh : Descriptor
    fresh = record { file = to_char k; cursor = 0 }

    fs1 : Fs host
    fs1 = record fs { descriptors = set fs.descriptors i fresh }
