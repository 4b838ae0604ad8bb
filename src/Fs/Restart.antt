-- ===== src/Fs/Restart.antt =====
-- `umount_fs` and `mount_fs` after any calls.
use team_otw_os_labs.Base.{ℕ, ◌≡◌, Bool, List, map, take, ok, ◌>>=◌, some, true, replicate}
use team_otw_os_labs.Disk.{Host, Disk}
use team_otw_os_labs.Fs.State.{Fs, no_file}
use team_otw_os_labs.Fs.Mount.{mount_fs, umount_fs, all_closed_loop}
use team_otw_os_labs.Fs.Content.{Faithful, block_of}
use team_otw_os_labs.Fs.Persist.{restored}
use team_otw_os_labs.Fs.Remount.{Reopens, remount}
use team_otw_os_labs.Fs.Leaves.{IsUp}
use team_otw_os_labs.Fs.Calls.{Calls, Calls-IsSound, first_kept}

module _ (host : Host) (faith : Faithful host) where
  -- On a disk that keeps its blocks, let a mounted, sound file system have the metadata of every
  -- slot on the disk, let calls be made as in Calls-IsSound after which no descriptor is open, and
  -- let the disk's file open again after it is closed with what it held. Then umount_fs and
  -- mount_fs succeed, and mount_fs reads back all 64 slots as they are in memory after the calls:
  -- an unused one as empty, a used one with its name and with each number of num_blocks, size_last
  -- and blocks unchanged where its low byte is less than 128, and 256 less modulo 2 ^ 16 where it
  -- is not. The table of the blocks in use is what block 0 of the disk held before the calls,
  -- whatever they have changed in it, and every descriptor is closed.
  pub mount_fs-Calls :
      (bytes junk : List ℕ) (name : host.Name) (fs fs1 : Fs host)
      → IsUp host faith fs
      → Calls host fs fs1
      → all_closed_loop host 32 0 fs1.descriptors ≡ ok true
      → Reopens host faith name fs1.disk.world fs1.disk.handle
      → (d : Disk host) × ((umount_fs host fs1 >>= λ (s : Bool × Fs host).
            mount_fs host bytes junk (some name) s.1)
          ≡ ok (
            true,
            record {
              disk = d;
              usage = take 4096 (block_of host faith fs.disk 0);
              file_metas = map (restored junk) fs1.file_metas;
              descriptors = replicate 32 (record { file = no_file; cursor = 0 });
            },
          ))
  mount_fs-Calls bytes junk name fs fs1 up calls closed again =
      let up1 = Calls-IsSound host faith fs fs1 up calls in
      remount host faith bytes junk name fs1 _ up1.0 up1.1.files up1.2 closed again
        (first_kept host faith fs fs1 up calls)
