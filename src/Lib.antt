-- ===== src/Lib.antt =====
-- xv6-64, a small Unix kernel for x86-64, and the theorems about its core.
--
-- Parts, and the file here of each. Names are the source's; paths are from the repository's root.
--   log.c        Log       the write-ahead log: commit, recovery, admission of operations
--   pipe.c       Pipe      pipes: a ring of 512 bytes between 32-bit counters
--   kalloc.c     Kalloc    the list of free pages
--   string.c     Strings   the memory and string functions, with stosb and stosl of x86.h
--   file.c       File      open files, and the descriptors of sysfile.c (argfd, fdalloc, dup, close)
--   proc.c       Proc      the process table: allocation, fork, wakeup; Proc/Ending: exit, wait,
--                          kill, sleep, yield and the scheduler's choice
--   spinlock.c   Spinlock  spin locks between processors, and the interrupts that they hold off
--   syscall.c    Syscall   fetching and checking the arguments of a system call
--   kbd.c        Kbd       scan codes to characters, with the tables of kbd.h
--   bio.c        Bio       the buffer cache, with sleeplock.c and the disk of memide.c
--   vm.c         Vm        page tables; Vm/Space: whole address spaces and the user memory in them
--   console.c    Console   the input line, formatted output
--   sysfile.c    Sysfile   link, unlink, mkdir, mknod and chdir over Fs
--   sh.c         Sh        the tokens and the command parser of the shell
--   grep.c       Grep      the matcher, and the loop over the lines of the input
--   fs.c         Fs        Fs/Disk: blocks and bitmap; Fs/Inodes: the inode cache; Fs/Files: the
--                          blocks of a file; Fs/Dirs: directories and path names
-- Base holds lists over native numbers, Boolean tests, arrays as functions, and the result type.
--
-- How they interact. Processes hold descriptors, which are indices into the file table of File:
-- `fork` and `exit` of Proc use its `filedup` and `fileclose`. A last close hands a pipe's end or an
-- inode on, to `pipeclose` of Pipe and `iput` of Fs. The file system writes inside a transaction of
-- Log: Fs records the blocks given to `log_write`, and Log says what a commit makes of them. The
-- calls of Sysfile are the functions of Fs between a `begin_op` and an `end_op`, which they count. Vm
-- takes its pages from Kalloc. Log stands on `bread` and `bwrite`, which Bio describes with their
-- list and their locks. Sh and Grep are user programs and stand alone.
--
-- State. A module's state is a record or a list with the fields of the C structures. An operation
-- is a function from the state to a result and the new state. `panic` is a result. A function that
-- would sleep returns a value that says so, with the state in which it sleeps, and its caller's
-- loop calls it again. Code under a spin lock is one step; in Spinlock itself the exchange, each
-- store, and `popcli` are steps.
--
-- Numbers are natural numbers; unsigned ints keep their wrap-around where the code relies on it: the
-- pipe's counters, the offsets of readi and writei, the sums of argptr. `nextpid` and reference
-- counts are taken not to wrap.
--
-- Fuel. A loop whose bound is in the code runs a round for each step of that bound. `balloc` runs a
-- round for each bitmap block and one more, `dirlookup` and `dirlink` one for each entry that the
-- size has room for and two more, `namex` one for each byte of the path and one more. `kinit1`,
-- `filewrite` and `strlen` have theorems that say how much is enough. The shell's parser runs on four units for
-- each byte of the line and four more, and its loops on a unit for each byte. The loops of
-- vm.c run a round for each page and one more, and those of `bget` one for each buffer and one more.
--
-- Not modelled: the registers of devices (ide.c, uart.c, the screen, lapic.c, ioapic.c), boot code and
-- assembly, traps, exec and loaduvm, sys_open, sys_pipe and sys_exec, the commands that the shell runs,
-- the other user programs and the user library, mkfs. Log's device stands for the buffer
-- cache: `bread` gives the cached block, `bwrite` changes disk and cache, and a number of writes is left before
-- the machine stops. What vm.c returns to fork is an argument.
pub mod Base
pub mod Bio
pub mod Console
pub mod File
pub mod Fs
pub mod Grep
pub mod Kalloc
pub mod Kbd
pub mod Log
pub mod Pipe
pub mod Proc
pub mod Sh
pub mod Spinlock
pub mod Strings
pub mod Syscall
pub mod Sysfile
pub mod Vm
