-- ===== src/Fs/CallTests.antt =====
-- Examples: a disk in memory with an empty file, where files are made, grow and go.
use team_otw_os_labs.Base.{
  ℕ, zero, suc, ◌≤◌, ◌≡◌, ◌≢◌, refl, sym, List, [], ◌∷◌, true, false, some, ok, arith, load, length,
  replicate, length-replicate, ok-injective, ◌⊎◌, int_of_char,
}
use team_otw_os_labs.Fs.Memory.{memory, memory_keeps}
use team_otw_os_labs.Fs.State.{FileMeta, Descriptor, Fs}
use team_otw_os_labs.Fs.Files.{file_size, fs_create, fs_delete, unused_loop}
use team_otw_os_labs.Fs.Transfer.{fs_write}
use team_otw_os_labs.Fs.Persist.{Fits, Keeps}
use team_otw_os_labs.Fs.SavedSlot.{saved-Keeps, saved-others}
use team_otw_os_labs.Fs.Stored.{IsStored}
use team_otw_os_labs.Fs.Wiped.{zeros_fit}
use team_otw_os_labs.Fs.Fixture.{page, page_size, slot, slate, slot-Fits, slot-Keeps, of_slots}
use team_otw_os_labs.Fs.Open.{IsOpen}
use team_otw_os_labs.Fs.Sound.{IsLaidOut, Marked}
use team_otw_os_labs.Fs.Past.{Appends, fs_write-past}
use team_otw_os_labs.Fs.Slots.{NoneBefore, is_unused, is_used}
use team_otw_os_labs.Fs.Invariant.{IsSound, empty-IsSound}
use team_otw_os_labs.Fs.Cut.{saved, saved-active}
use mathlib.Core.Path.{subst}
use team_otw_os_labs.Fs.Create.{new_file, created, create_runs, fs_create_lem}
use team_otw_os_labs.Fs.Delete.{deleted, Frees, fs_delete_lem}
use team_otw_os_labs.Fs.Leaves.{IsUp}
use team_otw_os_labs.Fs.Calls.{Calls, none_made, then_call, create, write_past, Calls-IsSound}

abbrev empty_file : FileMeta
empty_file = record slot { in_use = 1 }

abbrev at_start : Descriptor
at_start = record { file = 0; cursor = 0 }

abbrev metas : List FileMeta
metas = empty_file ∷ replicate 63 slot

-- The metadata of every slot are on the disk. The descriptor 0 is open on the file 0.
abbrev start : Fs memory
start = record {
  disk = saved memory page 0 empty_file slate;
  usage = page;
  file_metas = metas;
  descriptors = at_start ∷ [];
}

abbrev IsBlank : FileMeta → Type 0
IsBlank f = (length f.blocks ≡ 4096) × (f.num_blocks ≡ 0) × (f.size_last ≡ 0)

metas-IsBlank : (m : ℕ) (f : FileMeta) → load metas m ≡ ok f → IsBlank f
unfolding load
metas-IsBlank zero f h =
    let e : empty_file ≡ f = ok-injective h in rw (sym e) (page_size, refl, refl)
metas-IsBlank (suc m) f h = of_slots IsBlank (page_size, refl, refl) 63 m f h

start-IsSound : IsSound metas page
start-IsSound =
    empty-IsSound metas page page_size (omega (arith, length-replicate 63 slot)) metas-IsBlank

start_on : start.disk.active ≡ true
start_on = saved-active memory page 0 empty_file slate refl

start-IsOpen : IsOpen memory start 0 at_start empty_file
unfolding load int_of_char
start-IsOpen = record { mounted = start_on; found = refl; taken = refl; has_file = refl }

empty-Fits : Fits empty_file
empty-Fits = record {
  name_size = slot-Fits.name_size;
  list_size = page_size;
  count = omega arith;
  last = omega arith;
  entries = zeros_fit 4096;
}

start-IsStored : IsStored memory memory_keeps start.disk metas
unfolding load
start-IsStored zero f e =
    subst (λ g. Fits g × Keeps memory memory_keeps start.disk 0 g) (ok-injective e)
      (
        empty-Fits,
        saved-Keeps memory memory_keeps page page_size 0 (omega arith) empty_file empty-Fits slate
            refl,
      )
start-IsStored (suc m) f e =
    of_slots (λ g. Fits g × Keeps memory memory_keeps start.disk (suc m) g)
      (
        slot-Fits,
        saved-others memory memory_keeps page page_size 0 (omega arith) empty_file empty-Fits slate
            refl (suc m) slot (λ q. omega (arith, q)) (slot-Keeps (suc m)),
      )
      63 m f e

start-IsUp : IsUp memory memory_keeps start
start-IsUp = (start_on, start-IsSound, start-IsStored)

empty-IsLaidOut : IsLaidOut empty_file
unfolding int_of_char
empty-IsLaidOut = start-IsSound.laid_out 0 empty_file start-IsOpen.has_file (λ e. omega (arith, e))

empty-Marked : Marked page empty_file
unfolding int_of_char
empty-Marked = start-IsSound.marked 0 empty_file start-IsOpen.has_file (λ e. omega (arith, e))

empty_size : 0 ≡ file_size empty_file
unfolding file_size
empty_size = refl

-- 5000 bytes.
abbrev text : List ℕ
text = replicate 5000 7

text_size : 5000 ≤ length text
text_size = omega (arith, length-replicate {A = ℕ} 5000 7)

abbrev new_name : List ℕ
new_name = replicate 15 97

name_size : 15 ≤ length new_name
name_size = omega (arith, length-replicate {A = ℕ} 15 97)

fs_create_lem_example :
    (NoneBefore is_unused start.file_metas 64
      × (fs_create memory page new_name start ≡ ok (false, start)))
    ⊎ ((n : ℕ) × (f : FileMeta) × (load start.file_metas n ≡ ok f)
        × (f.in_use ≡ 0)
        × NoneBefore is_unused start.file_metas n
        × (fs_create memory page new_name start ≡ ok (true, created memory page new_name n f start))
        × IsSound
            (created memory page new_name n f start).file_metas
            (created memory page new_name n f start).usage)
fs_create_lem_example = fs_create_lem memory page new_name start start_on start-IsSound name_size

-- The file system after `fs_create` makes the file 1, and after 5000 bytes go to the file 0.
abbrev two_files : Fs memory
two_files = created memory page new_name 1 slot start

second_free : unused_loop 64 0 metas ≡ ok (some 1)
unfolding unused_loop load
second_free = refl

second_slot : load metas 1 ≡ ok slot
unfolding load
second_slot = refl

create_call : fs_create memory page new_name start ≡ ok (true, two_files)
create_call =
    create_runs memory page new_name start 1 slot start_on name_size second_free second_slot

two_files-IsOpen : IsOpen memory two_files 0 at_start empty_file
unfolding load int_of_char
two_files-IsOpen = record {
  mounted = saved-active memory page 1 (new_file new_name slot) start.disk start_on;
  found = refl;
  taken = refl;
  has_file = refl;
}

-- A written file, with the call that wrote it.
Grown : Type 0
Grown =
    (fs1 : Fs memory) × (count : ℕ) × (file : FileMeta) × (fs_write memory page page 0 text 5000
        two_files
      ≡ ok (some count, fs1))
    × Appends memory memory_keeps page 0 at_start empty_file text 5000 two_files fs1 count file

grown : Grown
unfolding int_of_char Grown
grown =
    fs_write-past memory memory_keeps page page 0 text 5000 two_files at_start empty_file
      two_files-IsOpen (omega arith) empty-IsLaidOut empty-Marked page_size empty_size (omega arith)
      text_size

used_up : Fs memory
unfolding Grown
used_up = grown.0

made_and_grown : Calls memory start used_up
unfolding Grown used_up
made_and_grown =
    then_call (then_call none_made (create page new_name true name_size page_size create_call)) (
      write_past page page text 0 5000 (some grown.1) at_start empty_file two_files-IsOpen
        (λ e. omega (arith, e)) empty_size (omega arith) text_size page_size grown.3)

Calls-IsSound_example : IsUp memory memory_keeps used_up
Calls-IsSound_example = Calls-IsSound memory memory_keeps start used_up start-IsUp made_and_grown

used_up-IsUp : IsUp memory memory_keeps used_up
used_up-IsUp = Calls-IsSound memory memory_keeps start used_up start-IsUp made_and_grown

fs_delete_lem_example :
    (NoneBefore is_used used_up.file_metas 64
      × (fs_delete memory page page used_up ≡ ok (false, used_up)))
    ⊎ ((n : ℕ) × (f : FileMeta) × (u : List ℕ) × (load used_up.file_metas n ≡ ok f)
        × (f.in_use ≢ 0)
        × NoneBefore is_used used_up.file_metas n
        × (fs_delete memory page page used_up ≡ ok (true, deleted memory page n f u used_up))
        × Frees memory f used_up.usage u
        × IsSound
            (deleted memory page n f u used_up).file_metas
            (deleted memory page n f u used_up).usage)
fs_delete_lem_example = fs_delete_lem memory page page used_up used_up-IsUp.0 used_up-IsUp.1
