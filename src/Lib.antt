-- ===== src/Lib.antt =====
-- RainOS, an xv6 kernel with exokernel calls, modelled and verified in part.
--
-- The parts, and the files that model them:
-- * The redo log (log.c) is Log.antt: `struct log` and the functions on it, over the blocks of
--   Disk.antt, which is what bio.c and ide.c promise to the log. A machine loses power at some
--   disk write; `power` counts the writes that still reach the disk, so a crash needs no step of
--   its own. Log/Install, Log/Commit, Log/Recovery and Log/Idle follow each loop's writes to the
--   disk, Log/Stopped a commit that loses power, Log/Crash the restarts after it, and Log/Reserved,
--   Log/Recorded and Log/Ops the reservation of log space.
-- * Pipes (pipe.c) are Pipe.antt: the ring of 512 bytes under two 32-bit counters, and its
--   functions from one sleep to the next. Pipe/Ring and Pipe/Calls prove single bytes and whole
--   calls, Pipe/Stream any order of calls.
-- * The page allocator (kalloc.c) is Kalloc.antt over a memory of words. Kalloc/Free reads its
--   free list as a list of pages, Kalloc/Range is the initialisation, Kalloc/Frames the
--   exokernel's `allocadd`.
-- * The process table (proc.c) is Proc.antt: every function is a step on the table between two
--   calls of `sched`. Proc/Wakeup, Proc/Files, Proc/Fork, Proc/Child, Proc/Exit, Proc/Wait and
--   Proc/Kill are about one group of functions each.
-- * The inode cache (fs.c, iget to iunlockput) is Icache.antt: a table of slots, with the inode's
--   blocks on the disk read through an argument. Icache/Get is the sharing of slots, Icache/Flags
--   the lock and the flags.
-- * Open files (file.c) and `pipealloc` (pipe.c) are FileTable.antt: FileTable/Refs is about the
--   reference counts, FileTable/Undo and FileTable/MakePipe about the two files of a pipe,
--   FileTable/Write about the loop of `filewrite`. What `readi` and `writei` do is an argument.
-- * Spin locks (spinlock.c) are Spinlock.antt: Spinlock/Nesting is about `pushcli` and `popcli`,
--   Spinlock/Fits and Spinlock/Exclusion about one lock and many processors, which interleave at
--   every access to the lock.
-- * Strings (string.c) are String.antt, on a memory of bytes: String/Moves proves `memmove`,
--   String/Copies the two string copies, String/Fill `memset`, String/Compare the comparisons.
-- * The block allocator (fs.c, readsb to bfree) is Bitmap.antt over the bytes of the disk's blocks:
--   Bitmap/Bits reads the bitmap as a set, Bitmap/Search and Bitmap/Alloc prove the functions.
-- * Inodes on the disk (fs.c, ialloc and iupdate, and the read of ilock) are Inodes.antt:
--   Inodes/Layout proves that what is written is read, Inodes/Alloc the search for a free inode.
-- * File contents (fs.c, bmap to writei) are Content.antt: Content/Map says which blocks a file owns,
--   Content/Slots, Content/Entry, Content/Grow and Content/Full are about `bmap`, Content/Read about
--   `readi`, Content/Step, Content/Append, Content/Loop, Content/Update and Content/Write about `writei`, Content/RoundTrip the two together,
--   Content/Size the size that reading keeps.
-- * Directories (fs.c, namecmp to skipelem) are Directory.antt, with names in the memory of
--   String.antt; Directory/Entries proves the search of `dirlookup`, Directory/Fuel that the loops
--   over the entries end, Directory/Elements `skipelem`.
-- * Paths (fs.c, namex to nameiparent) are Path.antt: actions on the inode cache, the disk and the
--   memory, as do blocks. Path/Ensures and Path/Refs say what each action takes and gives back,
--   Path/Loop and Path/Walk follow the references along a path.
-- * The system calls on paths (sysfile.c) are Links.antt (sys_link, sys_unlink, sys_chdir, and
--   dirlink of fs.c) and Creat.antt (create, sys_mkdir, sys_mknod, sys_open), in the same actions;
--   Links/Enter, Links/Balance and Links/Chdir follow the references that the calls take.
-- * The block cache (bio.c) is Bio.antt: Bio/Ring reads the doubly linked list as a list of buffers,
--   Bio/Release proves `brelse`, Bio/Search the two loops of `bget`, Bio/Get `bget` itself.
-- * Virtual memory (vm.c) is Vm.antt, with the page tables in the memory of Kalloc.antt: Vm/Flags is
--   about the bits of an entry, Vm/Tables says what an address space is, Vm/Walk proves `walkpgdir`
--   and Vm/Mapping `mappages` of a page. Vm/Setup makes an address space and loads a program,
--   Vm/Resize lets it grow, shrink and end, and Vm/Copy copies it.
-- * The console (console.c) is Console.antt: Console/Ring reads the ring of typed characters as two
--   lists, Console/Edits, Console/Typing and Console/Session are about the keys, Console/Lines follows
--   a line from the keys to the reader, Console/Display is the text screen.
-- * Formatted output (console.c and printf.c) is Print.antt: Print/Digits proves `printint`,
--   Print/Format compares the kernel's with the user programs'.
-- * The user programs' library (ulib.c) is Ulib.antt, with `atoi` in Ulib/Atoi.
-- * The shell's parser (sh.c) is Shell.antt: Shell/Tokens proves `gettoken` and `peek`, Shell/Shape
--   says what a command in a line is, Shell/Loops and Shell/Parsing prove the recursive functions.
-- * The image builder (mkfs.c) is Mkfs.antt; Mkfs/Usage proves that its bitmap is what the kernel's
--   block allocator needs.
-- * System calls' arguments (syscall.c) are Syscall.antt, with the proofs in Syscall/Args.
-- * The system calls on descriptors (sysfile.c: sys_dup, sys_close, sys_pipe) are Descriptors.antt:
--   Descriptors/Slots is about free descriptors, Descriptors/Dup, Descriptors/DropEnds and
--   Descriptors/MakePipe about the calls, on top of what Syscall and FileTable prove.
-- * The exokernel's memory calls (sysmem.c) are Exokernel.antt, on the memory of Kalloc.antt and the
--   page tables of Vm.antt; Exokernel/AddPage proves what mapping a frame does.
-- * `growproc` (proc.c), and sys_sbrk and sys_kill (sysproc.c), are Sbrk.antt; Sbrk/Shrink is about
--   giving memory back.
-- * Common.antt holds what the files share: tests, arrays as lists or as functions, 32-bit words,
--   the kernel's linear searches, and the outcome of code that may panic.
--
-- Interaction: the log takes blocks from the block layer; a process takes its stack from the page
-- allocator and sleeps in pipes and in the log. What one part gives another is an argument of the
-- functions here (the stack that `kalloc` returned, the page directory that `copyuvm` returned).
-- Outside of Spinlock.antt locks are not in the state: a function is modelled from the point where
-- it holds its lock to the point where it gives it up, and a sleep is a result.
--
-- The file system below the log sees a disk whose writes have been logged: a changed buffer that is
-- given to `log_write` is the block's contents from then on (Log/Ops has it for the log). The
-- theorems about it assume a disk as mkfs makes it: fewer than 2^31 blocks, and all blocks up to the
-- bitmap's last marked as used.
--
-- Fuel: the loops along linked lists (`free_from`, `find_frame`, `last_slot`, `follow`) and over a
-- directory's entries (`find_entry`) run on fuel, and the theorems about them say how much is enough:
-- more than the rounds, which are the pages of the range, the free pages, the recorded frames, the
-- buffers, or the entries. `mappages` of a page needs one round. The other loops of Vm.antt and
-- Directory.antt that run on fuel are executable definitions without a theorem so far. `filewrite`
-- gives its loop one round more than there are bytes, which is shown to be enough. All other loops
-- count their rounds.
--
-- The walks along paths run on fuel too: more than the path's length is enough for `namex`, as much as
-- the caller's memory for the calls on paths. `dirlookup` and `dirlink` get one round more than the
-- directory has bytes there, which is shown to be enough. `isdirempty` gets as many, which is not
-- proved to be enough.
--
-- The actions of Path.antt, Links.antt and Creat.antt run one call at a time: a call that would wait
-- for another's inode is `sleeps`. `begin_op` and `end_op`, which bracket these calls in the log, are
-- left out: the disk there is the one whose writes have been logged.
--
-- Not modelled: device drivers, booting, trap entry and assembly (hardware); the other user
-- programs, which only call the kernel; exec and its call; sys_read, sys_write and sys_fstat, whose
-- functions on files are in FileTable.antt; the sleep of sys_sleep, and umalloc.c.
pub mod Common
pub mod Disk
pub mod Log
pub mod Pipe
pub mod Kalloc
pub mod Proc
pub mod Icache
pub mod FileTable
pub mod String
pub mod Spinlock
pub mod Syscall
pub mod Bitmap
pub mod Inodes
pub mod Content
pub mod Bio
pub mod Vm
pub mod Directory
pub mod Console
pub mod Print
pub mod Ulib
pub mod Shell
pub mod Mkfs
pub mod Descriptors
pub mod Exokernel
pub mod Sbrk
pub mod Path
pub mod Links
pub mod Creat
