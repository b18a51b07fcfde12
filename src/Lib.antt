-- ===== src/Lib.antt =====
-- coreinit: the memory manager, the cluster scheduler, the messages that carry their calls on a machine
-- and between machines, the jobs of a core, the reader of the device tree, and the discovery of the
-- machine on both ports.
--
-- Every object of coreinit answers calls that the kernel delivers: a method number and a flat message
-- of 64-bit words (coreinit/capnp_build.h, modelled in Wire.antt). A handler here takes the words of
-- the request and the room for the reply, and returns the words of the reply (`none` for an empty one)
-- with the state after the call. The kernel has checked the shape of a request before it delivers it,
-- so a handler reads its words without a test.
--
--   Wire.antt     coreinit/capnp_build.h: capnp_build_flat, capnp_read_flat, capnp_read_flat_exact.
--   MemMgr.antt   coreinit/mem_mgr.c: the claim table as a list in the order of g_claims[0 ..
--                 g_claim_count), claim_locked, alloc_locked, free_locked and
--                 memory_manager_handler; MemMgr/Init.antt is memory_manager_init_schema with the
--                 addresses of include/smp_layout.h on both ports. uint64_t sums wrap (add64).
--   Kernel.antt   what the scheduler asks of the kernel, which is not in this repository: the
--                 factory's CREATE and DESTROY and the resolution of a handle, a record of functions
--                 with laws (a handle is given out once). Kernel/Table.antt is a kernel that has them.
--   Cluster.antt  coreinit/cluster_scheduler.c. Cluster/Objects: the data behind each object and its
--                 own handler (resource_handler, node_handler, mutex_handler, job_handler).
--                 Cluster/State: the static arrays as one record; `invoke` is g_kernel_invoke on a
--                 handle, which finds the object and runs its handler, the memory manager's
--                 included. Cluster/Resources, Nodes, Jobs: creation, lookup and destruction. Cluster/Pick:
--                 resource_ok_for, bind_resource_for, pick_next_for_node. Cluster/Handlers and
--                 JobHandlers: the methods. Cluster/Dispatch: cluster_scheduler_init_schema and
--                 cluster_scheduler_handler. Cluster/Quiet and Asks: what a message to one object leaves
--                 alone. Cluster/Traces: sequences of calls from the start.
--   MutexMgr.antt coreinit/mutex_mgr.c: the table of lock words and mutex_manager_handler.
--   Scheduler.antt  coreinit/scheduler.c, the client: a function for each call, over any function that
--                 delivers it; Scheduler/Worker is the turn of scheduler_run, and joins client and
--                 scheduler, as Scheduler/Submit and Scheduler/Results do for single calls;
--                 Scheduler/Memory is coreinit/job_memory.c, the slices of memory, with the allocator's
--                 mutex between two jobs in Memory/Contention.
--   JobExec.antt  coreinit/job_exec.c: the jobs of one core. A call returns the core after it and how
--                 the processor goes on (Goes): back to the caller, or with a saved context.
--                 JobExec/Best, Table, Running, Waits, Wakes, Priority, Calls, Started, Context and Stacks
--                 hold what is shown of it.
--   NetworkRpc.antt  coreinit/network_rpc.c: calls between machines, network_rpc_invoke and
--                 network_rpc_serve over any way for a packet to travel and any local kernel.
--   Fdt.antt      lib/fdt.c: the reader of the device tree. The blob is the list of its bytes, of less
--                 than 2 GiB; a read outside of it is the result `wild`, and `absent` is -1, 0 or
--                 NULL. Fdt/Nodes: first child, next sibling and parent. Props: properties and cell
--                 counts. Paths, Compatible: search. Ranges: memory and registers. Fdt/Layout has
--                 trees and the bytes that say them; Names, Trees, Children, Parents, Family and Steps join
--                 the reader to them, Ends shows that the walks end.
--   Topology.antt  coreinit/topology_aarch64.c: which cores and devices a machine has. Topology/Acpi and
--                 Madt: from ACPI tables; Topology/DeviceTree: from a device tree, and the choice.
--                 Topology/X86 is coreinit/acpi_x86_64.c.
--   Base.antt     Boolean tests, lists as arrays, words, and the lemmas that the others share.
--
-- A loop over a static array is recursion over the list that stands for it, so every function is
-- total; the only counter is that of the rounds in LEAVE_NODE, whose array shrinks nowhere, with
-- JOB_POOL_SIZE rounds as in the code. The walks of the device tree take a round for each byte of the
-- blob and one more, since each round moves on by four bytes or more; where the fuel ends the result
-- is `stuck`. The walk by compatible strings takes its fuel as an argument, since the code can go
-- round for ever. An int is its 32-bit pattern, compared by lt_int; those of the device tree are
-- offsets, which a blob of that size keeps in range. Null pointers are not modelled.
--
-- Not modelled: the locks (each call is one step, as under the scheduler's and the memory manager's
-- lock; the compare-and-swap that claims a job is kept, so that a stale choice loses), the log, and
-- what lies outside these files: processors, interrupts, page tables, devices, the carriers of
-- packets, the boot protocol and the second stage.
pub mod Base
pub mod Wire
pub mod MemMgr
pub mod Kernel
pub mod Cluster
pub mod Fdt
pub mod JobExec
pub mod MutexMgr
pub mod NetworkRpc
pub mod Scheduler
pub mod Topology
