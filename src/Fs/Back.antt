-- ===== src/Fs/Back.antt =====
-- What is written to a file is read back.
use team_otw_os_labs.Fs.State.{Fs}
