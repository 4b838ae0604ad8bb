-- ===== src/Lib.antt =====
-- The lab projects of Team Omega Tiger Woods: a shell, a memory allocator, a producer and
-- consumer program with its buffer, a thread scheduler, and a file system on a virtual disk. Each
-- lab is a program of its own; within a lab, p3.c calls buffer.c, scheduler.c calls sched_impl.c,
-- which calls list.c, and fs.c calls fsutil.c and disk.c.
--
-- Base: lists and Boolean tests over the native numbers, machine integers (an `int` is its 32-bit
--   pattern, with the signed order, division and conversions of two's complement), and `Run`, the
--   outcome of a call that may crash.
-- Mem: totw_p5/mymem.c. `Mem` is the state behind the static variables: the pool's address and
--   size, the strategy, the list of nodes (`Block` is `struct memoryList`) and `next`. `mymalloc`,
--   `myfree`, `merge_blocks` and the `mem_*` functions have the names of the source. The addresses
--   that `malloc` gives to the pool and to each new node are arguments. Mem/Valid says when a
--   heap is laid out well; Mem/Choice, Carve and Granted are about the choice of a node and its
--   split, Merge, Freed and Dispose about `myfree`, Figures, Live and IsAlloc about the status
--   functions, Rover, NextFit, Ready and Overrun about next-fit, Trace about sequences of calls.
--   The loop that moves `next` runs on fuel, two rounds for each node and three more, since it
--   passes each node at most twice. The other loops follow the list.
-- Buffer: totw_p3/buffer.c, the array of ten `int`s behind `add_to`, `pop`, `is_empty` and
--   `is_full`. Every access to the array is checked, and one out of range is a crash. Buffer/Shift is
--   about the loops that shift, Buffer/Holds relates the buffer to the sequence of the values it
--   holds.
-- Threads: totw_p3/p3.c. `producer_step` and `consumer_step` are the loops of `producer_func` and
--   `consumer_func`, cut where another thread may run; `Step` lets any thread that is not blocked
--   make a step, and `Reach` is any interleaving. The semaphore functions are a parameter with
--   their documented effect on its value; the number that `rand_r` returns is an argument.
-- LinkedList: totw_p4/list.c. `Ends` is `list_t`, and a heap gives the element (`list_elem_t`) at an
--   address; an access to an address that is not allocated is a crash. LinkedList/Represents says
--   when a heap holds a given list, LinkedList/Insert and Remove are about the functions
--   that change it. The loops of `list_size` and `list_foreach` run on fuel, for `list_size` more
--   than there are elements.
-- Wrapper and SchedImpl: totw_p4/sched_impl.c. Wrapper has the functions on the scheduler's lists,
--   each behind a semaphore, up to `create_wrapper`; SchedImpl has the operations of the workers and
--   of the scheduler. The semaphore functions of Threads are a parameter. A call on a list runs from
--   its `sem_wait` to its `sem_post` without another thread. `malloc`'s address is an argument. The
--   search for a datum runs on fuel that is an argument.
-- Scheduler: totw_p4/scheduler.c. `worker_step` and `sched_step` are `worker_proc` and `sched_proc`,
--   cut at every call and at the two halves of `num_workers_remaining--`; `Step` lets any thread
--   that is not blocked make a step from the state that `smp4_main` and `create_workers` set up.
--   Scheduler/Tokens and Bound count the workers that have the CPU, Count and Serial are about
--   `num_workers_remaining` with one worker at a time, Stuck with two, and Schedule runs the
--   threads in a given order.
-- Shell: totw_p2/shell.c. A line or a command is the list of its bytes; `tokens` is the loop of
--   `strtok`, `fget_input` reads from the bytes that are left of the file, and `run_cmd`, `run_line`
--   and `shell_main` are `run_cmd`, a turn of the loop of `main` and `main` itself, with `fork`,
--   `execvp` and `waitpid` as a parameter. What `free` does is followed for `in` and `pids`. The
--   loop of `strtok` has a round for each byte and one more. Shell/Words is about splitting,
--   Shell/Lines about reading, Shell/Ending about the end of `main`.
-- Disk: totw_p6/disk.c, with the host's file operations as a parameter.
-- Fs: totw_p6/fs.c and fsutil.c. `Fs` is the state behind the global variables; Fs/State has the
--   layout of a file's metadata on the disk, Fs/Mount `make_fs`, `mount_fs` and `umount_fs`,
--   Fs/Files the functions on names and descriptors, Fs/Transfer `fs_read` and `fs_write`, and
--   Fs/Truncate `fs_truncate`. What `malloc` leaves in fresh memory is an argument. The loops of
--   `fs_read` and `fs_write` run on fuel, a round for each byte and one more, and that of
--   `fs_truncate` on a round for each block that is cut off and one more. Fs/Open and Fs/Search
--   are about descriptors, Fs/Cut and Fs/Trim about `fs_truncate`, Fs/Bytes about the numbers on
--   the disk. Fs/Content states what a disk that keeps its blocks promises and what the bytes of a
--   file are, Fs/Least is about small numbers, Fs/Memory is an example of such a disk, Fs/Round
--   and Fs/Read are about `fs_read` on such a disk, Fs/Patch, WriteRound, Wrote, WriteLoop, Saved
--   and Write about `fs_write` inside a file, Fs/Back about both, and Fs/Grown, Append and Overlap
--   about a write at the end of a file and one over it. Fs/Sound says when the blocks of a file are
--   laid out well, Fs/Expand, Rounded, Grows, NewBlock, PastLoop and Past are about a write at the
--   end of a file that takes new blocks, Fs/Slots, Create and Delete about making and deleting a
--   file. Fs/Invariant says when the whole file system is sound, Fs/Keeps is about the functions
--   that change descriptors only, Fs/SavedSlot and Stored about slots whose metadata are on the
--   disk, and Fs/Leaves and Calls about sequences of calls. Fs/Encode and Info are about the blocks
--   in which metadata are saved, Fs/Persist and Remount about reading them back, Fs/Restart about
--   `umount_fs` and `mount_fs` after any calls, and Fs/Wiped and Fresh about `make_fs` and
--   `mount_fs`. Fs/Fixture is a disk for the examples.
--
-- Not modelled: printing and messages, sleeping and timing, the command lines, the end of the
-- processes, and a `malloc` that returns NULL. Of the scheduler (totw_p4) the dummy implementation,
-- whose functions are empty, is left out, and of the shell (totw_p2) the prompt. The test programs
-- and their runners are tests.
pub mod Base
pub mod Mem
pub mod Buffer
pub mod Threads
pub mod LinkedList
pub mod Wrapper
pub mod SchedImpl
pub mod Scheduler
pub mod Shell
pub mod Disk
pub mod Fs
