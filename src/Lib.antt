-- ===== src/Lib.antt =====
-- Cortex Forge: a Linux character driver for the two NVDLA and the one PVA accelerators of a Tegra234,
-- and its userspace library, as executable definitions with proofs.
--
-- The driver keeps a pool of 256 task slots and three accelerators. A client submits a task by ioctl:
-- the driver takes a free slot, fills it and puts it on the queue of the accelerator that the client
-- chose. The worker thread of each accelerator takes the tasks of its queue in turn, simulates their
-- execution and marks them complete. Clients query and cancel tasks by their id.
--
-- Which file models which part of the repository:
--   Base, Base/*       lists, options, Boolean tests and families, for all the modules
--   Errno              error numbers and results
--   Uapi, Uapi/*       include/cortex_forge_uapi.h: structs, their C layout, the ioctl numbers
--   Kernel             copy_from_user, copy_to_user, HZ and msecs_to_jiffies, as interfaces
--   Task, Task/*       include/cortex_forge_task.h and src/task_manager.c: task_pool_init, task_alloc,
--                      task_free, task_query, task_cancel
--   CString            strncpy and the text in a buffer
--   Accel, Accel/*     include/cortex_forge_accel.h and src/accel_manager.c: accel_init,
--                      accel_get_info, accel_start_workers, accel_stop_workers
--   Device             include/cortex_forge_dev.h, and task_submit of src/task_manager.c
--   Chardev, Chardev/* src/chardev.c: open, release, and cortex_forge_ioctl with a function for each
--                      command
--                      (Chardev/Spec and Chardev/Change: what the commands are to do, field by field)
--   Worker, Worker/*   accel_worker_thread of src/accel_manager.c
--   System, System/*   the driver at work: ioctl calls and worker steps in any order
--   Concurrent, Concurrent/*  the submit command of src/chardev.c with task_submit of
--                      src/task_manager.c, and task_cancel of it, one access at a time: calls that
--                      overlap
--   Probe, Probe/*     src/main.c: cortex_forge_probe, _remove, _init, _exit
--   Soc, Soc/*         src/cortex_forge_platform.c, src/cortex_forge_irq.c and their headers
--   SingleFile, SingleFile/*  src/cortex_forge_main.c, the driver in one file: task_alloc, task_free,
--                      task_submit, task_query, task_cancel and cortex_forge_ioctl, its
--                      accel_worker_thread (Thread), accel_init and the first part of its probe
--                      (Setup), and its cortex_forge_probe, _remove, _init and _exit (Probe, Start)
--   Sysfs              src/cortex_forge_sysfs.c: the attributes and what they show
--   Debugfs, Debugfs/* src/cortex_forge_debugfs.c: the register dump, the files, init and cleanup
--   Stub               src/cortex_forge_chardev.c: read, write and poll
--   Library, Library/* lib/src/libcortex-forge.c and lib/include/libcortex-forge.h
--   Scenario, Scenario/*  concrete inputs at which the theorems are applied
--
-- A pointer to a task is the index of its slot, and a list_head is a list of such indices. A write
-- through a pointer is a change of the slot at its index. Numbers are natural numbers; where the
-- program can wrap around, the modulus is written out: the 32-bit id counter, the 32-bit load, and the
-- 64-bit jiffies and their product with 1000000. A signed field is its bit pattern.
--
-- In System each ioctl is one step, taken at once. In Concurrent a submission stops between its
-- accesses to shared state, with the writes of the descriptor's fields, to a slot that is still
-- free, as one of them, and a cancellation stops between any two of its reads and writes of slots,
-- for any number of callers, and each caller's memory may change in between; there the queues need
-- not be in the order of the ids. A query, which only reads, is one step in System. A worker takes a
-- step for each of its accesses to shared state; what happens between them, by clients and other
-- workers, is arbitrary.
-- A call of the kernel that waits may return at any step, but where time matters: in System/Timed each
-- step has its jiffies, which do not go back and do not wrap, and msleep(1) takes a jiffy at least.
-- The recursion that is not on a list is the loop of task_pool_init, over the 256 rounds that the
-- program makes, and likewise the loops of the driver in one file.
--
-- Not modelled: log messages, the tables that only hand functions to the kernel, seq_file, the mutexes
-- and wait queues beyond what is said above, and the tests. The kernel, the C library, the version text
-- of the build and the ioctl encoding are parameters with the properties that are used; each has a
-- concrete instance in Uapi or Scenario.
pub mod Base
pub mod Errno
pub mod Uapi
pub mod Kernel
pub mod Task
pub mod CString
pub mod Accel
pub mod Device
pub mod Chardev
pub mod Worker
pub mod System
pub mod Concurrent
pub mod Probe
pub mod Soc
pub mod Sysfs
pub mod Debugfs
pub mod Stub
pub mod SingleFile
pub mod Scenario
pub mod Library
