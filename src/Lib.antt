-- ===== src/Lib.antt =====
-- The device model of NVMeVirt: its conventional, zoned and key-value flash translation layers
-- (FTL), the timing of its simple one, the work queues of its I/O workers, and its controller with
-- the admin queue. The device and the conventional FTL are those of the target that Kbuild selects
-- (SAMSUNG_970PRO, BASE_SSD in ssd_config.h).
--
-- The program and its files:
-- - Pqueue (pqueue/pqueue.c, pqueue/pqueue.h): the binary heap. Nodes are numbers into a store that
--   the callbacks `NodeOps` read and write; `NodeLaws` says what the heap relies on, and
--   ConvFtl/Lines/Queue shows it for the callbacks `victim_line_*`.
-- - Ssd/Params (ssd.c `ssd_init_params`, ssd_config.h): the geometry and the timing.
-- - Ssd/Channel (channel_model.c): the ring of transfer credits of one channel.
-- - Ssd/Buffer (ssd.c): the write buffer.
-- - Ssd/Nand (ssd.h, ssd.c): addresses, the tree of channels, LUNs, planes, blocks and pages. An
--   array is a map from its indices; a write through a pointer is an `update` at its address.
-- - Ssd/Timing (ssd.c): `ssd_advance_pcie`, `ssd_advance_write_buffer`, `ssd_advance_nand` and
--   `ssd_next_idle_time`, which change the channels and the LUNs.
-- - ConvFtl (conv_ftl.c, conv_ftl.h): State holds the structures; Numeric and Score the integer
--   square root and the scores; Lines and WritePointer the open, free, full and victim lines;
--   Mapping, Pages and Remap the two tables and the page states; Victim the choice of a line to
--   collect; Wear, Observe and Rl the wear statistics and the Q-learning agent; Copy and Gc the
--   collection and the write credits; Namespace, Read, Write, Io and Init the commands and the
--   initial state.
-- - Zns (zns_ftl.c, zns_ftl.h, nvme_zns.h): State holds zones, resources and address translation;
--   Namespace and Init the parameters and the initial state; Manage (zns_mgmt_send.c) the management
--   actions; Write and Zrwa (zns_read_write.c) the writes without and with a random write area; Read
--   the reads; Report (zns_mgmt_recv.c) the report of zones and its copies to the host; Io the
--   dispatch. Machine is the zone state machine that the code is compared with, which has no
--   counters, and Account the agreement of the counters with the zones.
-- - Kv (kv_ftl.c, kv_ftl.h, nvme_kv.h): Command reads a command; Table is the mapping table, with
--   Chained the chains that its links make, Search the search of a key in them and Entry the effect of
--   a new entry; Allocator the two allocators (append_only.c, bitmap.c); Transfer the copies between
--   the host and the storage; State the FTL, Io the commands on one key, Batch the batches, Iterate
--   the iterators and Namespace the parameters, the initial state and the dispatch.
-- - Units (simple_ftl.c): the schedule of a command on the I/O units, which kv_ftl.c has as well.
-- - Admin: State holds the controller; Bars the registers (`nvmev_proc_bars` of pci.c), Queues the
--   completion entries and the creation and deletion of queues, Identify and Features the commands of
--   that name, Requests the dispatch and the run over the queue (admin.c), Doorbells the pass over all
--   doorbells (`nvmev_proc_dbs` of main.c). Requests/Answers and Requests/Ring compare the completion
--   queue with one whose places are counted without end.
-- - WorkQueue (io.c): the ordered list of requests of a worker; Requests the free entries, the
--   enqueueing of commands and of internal operations, and the reclaiming; Service a round of a
--   worker, the completion entries and the doorbells. Chain is the list that the links stand for.
-- - World: the readings of the kernel's clocks and of its random numbers, as two sequences that are
--   parameters of every run.
-- - Common: shared tests, machine words, integers and digits.
-- - Examples: the theorems on concrete devices and queues, and runs.
--
-- How a command runs: `conv_proc_nvme_io_cmd` calls `conv_write`, which allocates from the write
-- buffer, moves each logical page by `remap`, steps the write pointer, programs whole word lines
-- through `ssd_advance_nand`, and collects garbage where the write credits are used up; the
-- collection takes its victim from the heap and moves valid pages by `map_page`.
--
-- `zns_proc_nvme_io_cmd` does the same for zones, where `zns_write` first checks and opens the zone
-- (`admit_write`) and then takes the time of the device. `nvmev_proc_io_sq` hands the entries of a
-- submission queue to the FTL, `enqueue_io_req` puts the results into a list of requests, and
-- `serve_all` completes those that are due.
--
-- The dispatcher calls `nvmev_proc_bars` and `nvmev_proc_dbs` in turn: the first one sets up the
-- admin queue, and the second one runs `nvmev_proc_admin_sq`, whose commands create the I/O
-- queues, and then `nvmev_proc_io_sq` and `nvmev_proc_io_cq` on those whose doorbells were rung.
--
-- `kv_proc_nvme_io_cmd` computes the time of a command with `schedule_io_units`; the data moves later,
-- by `kv_perform_nvme_io_cmd`, which a worker calls when the command is due: it finds the key in the
-- table or allocates storage for it, copies the value, and writes the entry.
--
-- Conventions: a `uint32_t` and an `int` is a 32-bit word and a `uint64_t` a 64-bit word, with the
-- wrap-around written out (Common/Words); an `int64_t` of the agent is an integer. An assertion that
-- fails (`BUG_ON`), a division by zero and a null dereference are `none`. A `struct line *` is the
-- line's index.
--
-- Fuel: `newton` has n + 1 rounds, since each lowers its number; `drain_credits` has one round for
-- each slot of the ring, and more make no difference; a sift of the heap has as many rounds as the
-- index or the size, which it halves or doubles; `read_transfer` has one for each byte, as the copies
-- of a report have; the loops over pages of `write_units`, `read_units` and `flush_units` have one for
-- each page; the loops over lists of requests have one for each entry of a table, since no entry is
-- twice in a list; the loop of nvmev_proc_io_cq has two more than the queue has entries;
-- a chain of the mapping table has one round more than the table has slots, as has the search of a
-- free slot; the schedule of a command has one round more than its length, of which each round takes
-- at least one byte. `settle` is the loop of the dispatcher over the registers, on fuel.
--
-- The zoned targets are not selected by Kbuild: their constants in ssd_config.h (`ZnsConfig`) are
-- a parameter. Zone tables and buffers are maps from their indices, so an access past the end of
-- such a table is not seen; a read past the page of a list of addresses (`list_entry`) is `none`.
-- A device has at least one I/O worker.
--
-- For keys and values, the memory of the host and the storage are maps from addresses to bytes,
-- and the theorems are on keys of one length; a read or a write past the 18 bytes of a key is
-- `none`; a batch has values below 2^31 bytes. The operations of the kernel on bitmaps are a
-- parameter (`BitmapOps`). An I/O unit has at least one block, and there is at least one.
--
-- The arrays of queues and of namespaces are maps from their indices. The admin commands that
-- would access them past their ends (`has_queue_id`, `has_namespace`), or a log past its own
-- (`log_fits`), are `none`, as is a read behind the pages of a completion queue (`has_entry`). The
-- entries of a completion queue name submission queues within their array, the host gives whole
-- pages for the answers to identify commands, doorbells are not negative, and the pages of an
-- admin queue are named by their address.
--
-- Not modelled: memory management and the functions that only free memory, spinlocks (each guarded
-- operation is one step), log output with the statistics of `conv_flush`, the copies of data, the
-- interrupts and the threads of io.c (within the FTLs, `schedule_internal_operation` is recorded
-- as a list of releases), the registration of the module and of the PCI device, its configuration
-- space, and DMA (main.c, pci.c, dma.c), which are hardware and kernel interfaces.
pub mod Common
pub mod World
pub mod Pqueue
pub mod Ssd
pub mod ConvFtl
pub mod Zns
pub mod WorkQueue
pub mod Kv
pub mod Units
pub mod Admin
pub mod Examples
