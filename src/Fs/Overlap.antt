-- ===== src/Fs/Overlap.antt =====
-- `fs_write` over the end of the last block's data.
use team_otw_os_labs.Fs.State.{Fs}
