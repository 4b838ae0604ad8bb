-- ===== src/Fs/Expand.antt =====
-- `find_empty_block`, and a file that takes one more block.
use team_otw_os_labs.Base.{
  ℕ, zero, suc, ◌+◌, ◌<◌, ◌≤◌, ◌≡◌, refl, List, length, get_or, set, true, ok, load, none, some,
  Option, Run, ◌==◌, arith, int_of_short, to_short, add_int, load-get_or, int_of_char, Bool-cases,
  inl, inr, sym,
}
use mathlib.Core.Path.{subst}
use team_otw_os_labs.Disk.{Host}
use team_otw_os_labs.Fs.State.{FileMeta, Descriptor, Fs, empty_loop, find_empty_block}
use team_otw_os_labs.Fs.Transfer.{add_block}
use team_otw_os_labs.Fs.Open.{IsOpen, guard-active, store-set, load-set}
use team_otw_os_labs.Fs.Sound.{IsLaidOut, longer}

-- No block is free, or `b` is a free one.
pub data Search (usage : List ℕ) (r : Run (Option ℕ)) : Type 0 where
  full : r ≡ ok none → Search usage r
  free : (b : ℕ) → r ≡ ok (some b) → b < length usage → get_or usage b 0 ≡ 0 → Search usage r

empty_loop-Search :
    (left i : ℕ) (usage : List ℕ) → i + left ≤ length usage → Search usage (empty_loop left i usage)
unfolding empty_loop
empty_loop-Search zero i usage h = full refl
empty_loop-Search (suc left) i usage h =
    let here = load-get_or usage i 0 (omega arith) in
    elim (Bool-cases (get_or usage i 0 == 0)) [
      | inl e ↦ free i (rw (here, e) refl) (omega arith) (ground arith)
      | inr e ↦ rw (here, e) (empty_loop-Search left (suc i) usage (omega arith))
    ]

pub is_loop :
    (host : Host) (fs : Fs host)
    → fs.disk.active ≡ true
    → find_empty_block fs ≡ empty_loop 4096 0 fs.usage
unfolding find_empty_block
is_loop host fs act = guard-active _ act

pub find_empty_block-Search :
    (host : Host) (fs : Fs host)
    → fs.disk.active ≡ true
    → length fs.usage ≡ 4096
    → Search fs.usage (find_empty_block fs)
find_empty_block-Search host fs act table =
    subst (Search fs.usage) (sym (is_loop host fs act))
      (empty_loop-Search 4096 0 fs.usage (omega arith))

short_more : (n : ℕ) → n < 4096 → to_short (add_int n 1) ≡ n + 1
unfolding to_short add_int
short_more n h = ground arith

short_count : (n : ℕ) → n < 4096 → int_of_short n ≡ n
unfolding int_of_short
short_count n h = ground arith

short_entry : (b : ℕ) → b < 4096 → to_short (b + 4096) ≡ b + 4096
unfolding to_short
short_entry b h = omega arith

module _ (host : Host) where
  -- The file system in which the file `n`, which was `f`, has the block `b` too.
  abbrev pub expanded : ℕ → ℕ → FileMeta → Fs host → Fs host
  expanded n b f fs = record fs {
    usage = set fs.usage b 1;
    file_metas = set fs.file_metas n (longer b f);
  }

  pub add_block-full :
      (n : ℕ) (fs : Fs host) → find_empty_block fs ≡ ok none → add_block host n fs ≡ ok none
  unfolding add_block
  add_block-full n fs e = rw e

  pub add_block_lem :
      (n b : ℕ) (f : FileMeta) (fs : Fs host)
      → find_empty_block fs ≡ ok (some b)
      → load fs.file_metas n ≡ ok f
      → IsLaidOut f
      → f.num_blocks < 4096
      → b < length fs.usage
      → b < 4096
      → add_block host n fs ≡ ok (some (expanded n b f fs))
  unfolding add_block
  add_block_lem n b f fs found here l more inside small =
      let room = l.room in
      rw (
        found,
        here,
        short_count f.num_blocks more,
        short_entry b small,
        store-set f.blocks f.num_blocks (b + 4096) _
            (load-get_or f.blocks f.num_blocks 0 (omega arith)),
        store-set fs.usage b 1 _ (load-get_or fs.usage b 0 inside),
        short_more f.num_blocks more,
        store-set fs.file_metas n (longer b f) f here,
      )

  pub expanded-IsOpen :
      (i b : ℕ) (d : Descriptor) (f : FileMeta) (fs : Fs host)
      → IsOpen host fs i d f
      → IsOpen host (expanded (int_of_char d.file) b f fs) i d (longer b f)
  expanded-IsOpen i b d f fs o = record {
    mounted = o.mounted;
    found = o.found;
    taken = o.taken;
    has_file = load-set fs.file_metas (int_of_char d.file) (longer b f) f o.has_file;
  }
