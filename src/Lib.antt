-- ===== src/Lib.antt =====
-- 36OS: a teaching operating system that runs processes on simulated processors, with a multi-level
-- queue scheduler and paged memory on simulated devices. This library models the scheduler, the memory
-- manager, the system calls, the execution of instructions, the loader of programs, the timer, and the
-- threads of the processors and the loader, in the build that include/os-cfg.h selects: MLQ_SCHED,
-- MM_PAGING and MM64.
--
-- The parts, from the devices up; each file opens with what it is about.
--   Prelude: Boolean tests and lists on native numbers, machine words, bit operations, and `Exec`,
--     the result of C code that can fault.
--   Queue: src/queue.c. A queue is the list of its occupied slots.
--   Sched: src/sched.c. The static variables are the record `Sched`; each function takes the queue
--     lock, so a call is one step. get_proc, put_proc and add_proc are what the processors call.
--     Sched.Single has the three of the build without MLQ_SCHED.
--   Pte: the macros of include/mm.h, include/mm64.h and include/bitops.h, and the splitting of
--     addresses in src/mm64.c.
--   PageTable: the five-level table of src/mm64.c, as nested functions from indices to tables that
--     may be missing. Its walk allocates tables on the way, as the code does. PageTable.Entries
--     gives the abstract view, a map from page numbers to entries, that the other files reason with.
--   Memphy: src/mm-memphy.c. A device is its bytes, its size and its list of free frames.
--   Mm: the structures of include/os-mm.h and include/common.h. A state of the kernel is `Krnl`,
--     which holds the current `mm`, RAM and the active swap device.
--   Mm64: allocation of frames, mapping of pages, copies of pages and listings, src/mm64.c.
--   Vm: the virtual memory areas of src/mm-vm.c and their growth.
--   Syscall: src/syscall.c, src/libstd.c and src/sys_mem.c. System call 17 is how the memory library
--     reaches the devices and the areas.
--   Libmem: the parts of src/libmem.c that work on the current `mm`: free regions, the choice of a
--     page to swap out, the exchange of pages, and bytes read and written through a page.
--   Process: allocation, release, read and write in the memory of a process, src/libmem.c. `World`
--     holds the `mm` of the process beside the kernel; `with_user_mm` is the switch of
--     `krnl->mm` around each call. Process.Heap is the state that __alloc and __free keep a process
--     in; Process.Isolation puts several processes on one RAM, a call at a time, as `mmvm_lock` lets
--     them in.
--   Kmem, Copies: kernel allocation, cache pools, and copies between kernel and process, src/libmem.c.
--   Cpu: run of src/cpu.c.
--   Timer: src/timer.c as a step relation: a step is one critical section of the timer thread or of a
--     device, and `Reach` is what any interleaving of them reaches. Timer.Inv has the invariant.
--   Loader: src/loader.c. The C library is the parameter `Stdio`; Loader.Files says how a program file
--     is written, character groups and white space, with the documented behaviour of the C library on it
--     as the laws `IsPrinter`: for words of visible characters and numbers in the range of their type.
--   Os: src/os.c. A pass of the loop of cpu_routine, or of ld_routine, is a function on the state
--     `Machine` that the threads share; Os.Config is read_config and Os.Boot is main up to its threads.
--     The threads meet in the scheduler's queues, in `done` and, between their passes, in the timer:
--     Os.Share puts processors and loader on one machine, in any order of their passes, and Os.Synced
--     joins them with the timer.
--   Mm32: the page table of src/mm.c, for the build without MM64.
--   Older: src/mem.c and the instructions of src/cpu.c that use it, for the build without MM_PAGING.
--   Tests: the theorems at concrete inputs.
--
-- Conventions. Integers of 32 and 64 bits are natural numbers below 2 ^ 32 and 2 ^ 64; an `int` is its bit
-- pattern. `fault` stands for undefined behaviour: a read through NULL, an access outside an array or a
-- device, or the use of an uninitialised byte. `malloc` succeeds. A function that returns -1 for no
-- result returns `none` or `failure`. Locks are left out: the scheduler and
-- the calls of Process hold theirs for the whole call; Kmem and Copies take none in the code either.
--
-- Loops. All loops are structural recursions, on a list or on the number of rounds that the code's
-- counter still has to make, so no fuel is needed: the loop of MEMPHY_mv_csr makes at most `maxsz` rounds,
-- since its counter stays below it, and the search of get_mlq_proc makes at most 140, as its `for` does.
--
-- A processor may take any number of passes; cpu_turns and ld_turns take the number as an argument.
--
-- Not modelled: pthread_create and pthread_join; passes of two processors that overlap in `run`, which
-- takes no lock; reads through the pointers that running_list keeps to blocks that os.c freed (the
-- queues hold the fields of the blocks, and a system call is modelled while the blocks of running_list
-- are allocated); print_pgtbl and the messages in between; the functions of src/mm.c that print a message
-- and return 0; src/sys_listsyscall.c, which prints; and the test program src/paging.c.
pub mod Prelude
pub mod Queue
pub mod Sched
pub mod Pte
pub mod Memphy
pub mod PageTable
pub mod Mm
pub mod Mm64
pub mod Vm
pub mod Syscall
pub mod Libmem
pub mod Process
pub mod Kmem
pub mod Copies
pub mod Cpu
pub mod Os
pub mod Mm32
pub mod Older
pub mod Timer
pub mod Loader
pub mod Tests
