-- ===== src/Lib.antt =====
-- Verification of GravityGPU: a paravirtual GPU in which a guest sends Metal commands through shared
-- memory, a QEMU device exposes that memory and a host daemon turns the commands into Vulkan.
--
-- The parts and how they interact. The device (qemu-patches/hw/display/gravity-gpu.c) maps a region
-- of shared memory and lays out a command ring, a completion ring and a data region in it
-- (protocol/include/gravity_ring.h). The guest writes commands, which start with a header
-- (protocol/include/gravity_protocol.h), and blocks of data; the host peeks at the front command,
-- handles it and consumes it, and writes completions that the guest reads. The daemon keeps what a
-- handle stands for in a table (host-daemon/src/resource_tracker.c), converts formats and
-- enumerations to Vulkan's numbers (protocol/src/gravity_formats.c) and chooses the properties of
-- textures (host-daemon/src/metal_to_vulkan.c). Its main loop (host-daemon/src/main.c) hands each
-- command to a handler (host-daemon/src/cmd_processor.c), which calls Vulkan on the device that
-- host-daemon/src/vk_device.c has set up. The guest's driver
-- (guest-driver/GravityGPU/GravityGPUAccelerator.cpp) sets itself up through the device's registers
-- and says hello to the daemon through the rings.
--
-- The files:
--   Prelude   names passed on, Boolean tests, lists, 32-bit words, packed bytes, masks, remainders.
--   Protocol  opcodes and their names, the command header, gravity_cmd_init, gravity_cmd_validate.
--   Ring      gravity_ring.h. Memory is the state: `RingHeader` is gravity_ring_header_t, `Shm` the
--             region behind it, `Ring` one side's gravity_ring_t. Setup, Command, Completion and
--             Region have one definition for each function, without the prefix gravity_ring_. Queue
--             is the abstract bounded queue; Channel, Window, Transfer and Front are the lemmas that
--             both rings share; Valid, Fifo, Reply, Layout, Rounding, Limits and Blocks the proofs.
--   Tracker   resource_tracker.h and .c. `Tracker` is the struct, arrays are functions of the index,
--             a pointer to an entry is its index. Table has one definition for each function; Probe
--             is about the probing loops, Free about the free list and the invariant, Step, Call,
--             Lookup and Loss about the operations.
--   Formats   the enumerations, both format tables, the lookups and the conversions to_vk_*. An enum
--             argument is the number from the wire, which may be no enumerator.
--   Device    gravity-gpu.h and .c. `Device` is GravityGPUState with the interrupt line; Mmio and Bar2
--             are the accesses of the guest, Lifecycle is realize, exit and reset.
--   Translate host-daemon/src/metal_to_vulkan.c. Vulkan's flags are fields of a record.
--   Payload   the structs of the single commands in gravity_protocol.h, each with the function that
--             reads it from the command buffer at the offsets of the packed struct.
--   Vulkan    Calls is the API as the daemon uses it, Objects what a log of calls leaves alive. State
--             is gravity_vk_state_t; Memory, Families, Gpu, Init and Destroy have the functions of
--             vk_device.c; Held, Leak, Cleanup, Remains and Shutdown the proofs.
--   Commands  cmd_processor.c: `Host` is the tracker with the log of calls; Buffer, Texture, Simple,
--             Cmdbuf, Pass and Render have the handlers; Owned, Commit, Bounds and Overrun the proofs.
--   Daemon    main.c: Dispatch is process_command, Loop is command_loop (`poll` is one round), Start the
--             way to it, Main all of `main`; Quiet, Poll, Drain, Answer, Commit,
--             Forget, Ready and Idle the proofs.
--   Guest     GravityGPUAccelerator.cpp: Driver has its methods, Handshake is about the hello.
--             Client is GravityGPUUserClient.cpp with the ping of guest-userspace/main.cpp, Ping what
--             becomes of that.
--   Tests     concrete runs.
--
-- A uint32_t is a native number, with wrap-around written out in the operations. A pointer into the
-- region is its offset from the base. Results -1 and NULL are `none` or `false`. The 16 bytes of a
-- header are read from the buffer as little-endian fields.
--
-- Parameters. The Vulkan library is a record of functions from the log of the calls made so far to
-- the answer of the next call; a handle is a number. `Machine` answers for the arithmetic of floats and
-- for reading a member of an entry's union that was not the one written. `Posix` and `Platform` answer
-- for the operating system, and a function for what the other side does while the guest's driver waits.
-- In the handlers and the loop `none` is a handler that does not come back: it leaves an array, or
-- waits without a time limit for a fence that is never signalled, as the library's answers say.
--
-- Fuel: the rounding loop of gravity_ring_init_host runs on fuel 32, which is enough for each size of
-- at most 2^31; the ring sizes of device and daemon are constants below that. The main loop runs for a
-- given number of rounds, with what the guest does before each, and the guest's wait for its 1000 polls.
--
-- Not modelled: memory barriers, and what guest and host do at once (each call is one step);
-- logging; the registration of the device with QEMU; signals; the debug callback of Vulkan; the
-- kernel objects of the guest's driver and of its user client; the tools and the tests. The copy
-- of a new buffer's initial data is a call in the log; whether it stays inside the mapped memory
-- and the region is not modelled. The BAR2 accesses work on the bytes of the region, those of the
-- ring header included, while the ring operations see the header as a record.
pub mod Prelude
pub mod Protocol
pub mod Payload
pub mod Ring
pub mod Tracker
pub mod Formats
pub mod Device
pub mod Translate
pub mod Vulkan
pub mod Commands
pub mod Daemon
pub mod Guest
pub mod Tests
