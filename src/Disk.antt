-- ===== src/Disk.antt =====
-- totw_p6/disk.c and disk.h: the virtual disk, a file of the host in blocks.
use team_otw_os_labs.Base.{
  ℕ, List, Bool, true, false, Option, none, some, if◌then◌else◌, replicate, not, ◌||◌, lt_int,
}

abbrev pub disk_blocks : ℕ
disk_blocks = 8192

abbrev pub block_size : ℕ
block_size = 4096

-- What disk.c uses of the host (<fcntl.h>, <unistd.h>). A name is given only if the pointer is not
-- NULL. `create` is the `open` of `make_disk` with the writes that follow it, whose results the code
-- does not look at; `false` means that the `open` failed. `open` gives a handle. `write_at` is
-- `lseek` and `write` of one block at its place, `read_at` `lseek` and `read`; a failure of either
-- call is `false` or `none`.
pub record Host : Type 1 where
  pub World : Type 0
  pub Name : Type 0
  pub create : Name → List ℕ → ℕ → World → Bool × World
  pub open_rw : Name → World → Option ℕ × World
  pub close : ℕ → World → World
  pub write_at : ℕ → ℕ → List ℕ → World → Bool × World
  pub read_at : ℕ → ℕ → World → Option (List ℕ) × World

-- `(block < 0) || (block >= DISK_BLOCKS)`
unfoldable pub out_of_bounds : ℕ → Bool
out_of_bounds block = lt_int block 0 || not (lt_int block disk_blocks)

module _ (host : Host) where
  open host use {World, Name, create, open_rw, close, write_at, read_at}

  -- The global variables of disk.c, beside the host's state.
  pub record Disk : Type 0 where
    pub world : World
    pub handle : ℕ
    pub active : Bool

  -- The result 0 is `true`, and -1 is `false`.
  unfoldable pub make_disk : Option Name → Disk → Bool × Disk
  make_disk none d = (false, d)
  make_disk (some name) d =
      let (made, w) = create name (replicate block_size 0) disk_blocks d.world in
      (made, record d { world = w })

  unfoldable pub open_disk : Option Name → Disk → Bool × Disk
  open_disk none d = (false, d)
  open_disk (some name) d =
      let (f, w) = open_rw name d.world in
      if d.active then (false, d) else elim f [
        | none ↦ (false, record d { world = w })
        | some h ↦ (true, record { world = w; handle = h; active = true })
      ]

  unfoldable pub close_disk : Disk → Bool × Disk
  close_disk d =
      if not d.active
      then (false, d)
      else (true, record { world = close d.handle d.world; handle = 0; active = false })

  unfoldable pub block_write : ℕ → List ℕ → Disk → Bool × Disk
  unfolding out_of_bounds
  block_write block buf d =
      if not d.active
      then (false, d)
      else if out_of_bounds block
      then (false, d)
      else let (done, w) = write_at d.handle block buf d.world in (done, record d { world = w })

  -- What is read goes to the buffer; on a failure the buffer keeps what it held.
  unfoldable pub block_read : ℕ → List ℕ → Disk → Bool × List ℕ × Disk
  unfolding out_of_bounds
  block_read block buf d =
      if not d.active
      then (false, buf, d)
      else if out_of_bounds block
      then (false, buf, d)
      else let (got, w) = read_at d.handle block d.world in
        elim got [
          | none ↦ (false, buf, record d { world = w })
          | some bytes ↦ (true, bytes, record d { world = w })
        ]
