-- ===== src/Fs/MountTests.antt =====
-- Examples: a file is made on an empty file system, which is then mounted again.
use team_otw_os_labs.Base.{
  [], false, ℕ, ◌≤◌, ◌≡◌, ◌>>=◌, refl, Bool, List, true, some, ok, arith, load, length, map, take,
  replicate, length-replicate,
}
use team_otw_os_labs.Disk.{Disk}
use team_otw_os_labs.Fs.Memory.{memory, memory_keeps}
use team_otw_os_labs.Fs.State.{FileMeta, Descriptor, Fs, no_file}
use team_otw_os_labs.Fs.Files.{fs_create, unused_loop}
use team_otw_os_labs.Fs.Mount.{all_closed_loop, umount_fs, mount_fs, make_fs, unused_meta}
use team_otw_os_labs.Fs.Content.{block_of}
use team_otw_os_labs.Fs.Persist.{Fits, Keeps, restored}
use team_otw_os_labs.Fs.Remount.{Reopens}
use team_otw_os_labs.Fs.Invariant.{empty-IsSound}
use team_otw_os_labs.Fs.Create.{created, create_runs}
use team_otw_os_labs.Fs.Leaves.{IsUp}
use team_otw_os_labs.Fs.Calls.{Calls, none_made, then_call, create}
use team_otw_os_labs.Fs.Restart.{mount_fs-Calls}
use team_otw_os_labs.Fs.Wiped.{zeros_fit, zeros}
use team_otw_os_labs.Fs.Fresh.{wiped, mount_fs-make_fs}
use team_otw_os_labs.Fs.Fixture.{page, page_size, slot, slate, slot-Fits, slot-Keeps, of_slots}

abbrev closed : Descriptor
closed = record { file = no_file; cursor = 0 }

abbrev metas : List FileMeta
metas = replicate 64 slot

abbrev blank : Fs memory
blank = record { disk = slate; usage = page; file_metas = metas; descriptors = replicate 32 closed }

blank-IsUp : IsUp memory memory_keeps blank
blank-IsUp = (
  refl,
  empty-IsSound metas page page_size (length-replicate 64 slot) (
      of_slots (λ f. (length f.blocks ≡ 4096) × (f.num_blocks ≡ 0) × (f.size_last ≡ 0))
        (page_size, refl, refl) 64),
  λ m. of_slots (λ f. Fits f × Keeps memory memory_keeps slate m f) (slot-Fits, slot-Keeps m) 64 m,
)

abbrev new_name : List ℕ
new_name = replicate 15 97

name_size : 15 ≤ length new_name
name_size = omega (arith, length-replicate {A = ℕ} 15 97)

-- The file system with the new file.
abbrev one_file : Fs memory
one_file = created memory page new_name 0 slot blank

first_free : unused_loop 64 0 metas ≡ ok (some 0)
unfolding unused_loop load
first_free = refl

first_slot : load metas 0 ≡ ok slot
unfolding load
first_slot = refl

create_call : fs_create memory page new_name blank ≡ ok (true, one_file)
create_call = create_runs memory page new_name blank 0 slot refl name_size first_free first_slot

only_create : Calls memory blank one_file
only_create = then_call none_made (create page new_name true name_size page_size create_call)

all_closed : all_closed_loop memory 32 0 one_file.descriptors ≡ ok true
unfolding all_closed_loop load
all_closed = refl

reopened : Reopens memory memory_keeps tt one_file.disk.world one_file.disk.handle
unfolding memory_keeps
reopened = record { handle = 3; world = one_file.disk.world; opens = refl; same = λ b. refl }

mount_fs-Calls_example :
    (d : Disk memory) × ((umount_fs memory one_file >>= λ (s : Bool × Fs memory).
    mount_fs memory page page (some tt) s.1)
      ≡ ok (
        true,
        record {
          disk = d;
          usage = take 4096 (block_of memory memory_keeps blank.disk 0);
          file_metas = map (restored page) one_file.file_metas;
          descriptors = replicate 32 (record { file = no_file; cursor = 0 });
        },
      ))
mount_fs-Calls_example =
    mount_fs-Calls memory memory_keeps page page tt blank one_file blank-IsUp only_create all_closed
      reopened

-- No disk is open, and no file system mounted.
abbrev at_boot : Fs memory
at_boot = record {
  disk = record { world = λ b j. 5; handle = 0; active = false };
  usage = [];
  file_metas = [];
  descriptors = [];
}

wiped-Reopens :
    Reopens memory memory_keeps tt
      (wiped memory memory_keeps at_boot.disk.world 3).world
      (wiped memory memory_keeps at_boot.disk.world 3).handle
unfolding memory_keeps
wiped-Reopens = record {
  handle = 3;
  world = (wiped memory memory_keeps at_boot.disk.world 3).world;
  opens = refl;
  same = λ b. refl;
}

mount_fs-make_fs_example :
    (d1 : Disk memory) × (fs1 : Fs memory) × (make_fs memory (some tt) at_boot.disk ≡ (true, d1))
    × (mount_fs memory page page (some tt) (record at_boot { disk = d1 }) ≡ ok (true, fs1))
    × (fs1.usage ≡ zeros)
    × (fs1.file_metas ≡ replicate 64 (unused_meta page))
    × (fs1.descriptors ≡ replicate 32 (record { file = no_file; cursor = 0 }))
    × IsUp memory memory_keeps fs1
mount_fs-make_fs_example =
    mount_fs-make_fs memory memory_keeps page page tt at_boot.disk at_boot at_boot.disk.world
      at_boot.disk.world 3 refl refl refl wiped-Reopens page_size (zeros_fit 4096)
