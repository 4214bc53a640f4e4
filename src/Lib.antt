-- ===== src/Lib.antt =====
-- honOS: a verification library of the kernel's core logic.
--
-- honOS is an x86-64 kernel in C++ (kernel/) with a UEFI loader (HonoLoaderPkg/) and user
-- programs (apps/). The kernel takes the memory map from the loader, sets up frames, heap and
-- paging, starts the scheduler, and runs a main task that serves messages; terminals, the FAT
-- file system, the window layers and the USB driver stand around these.
--
-- The library is a tree of modules, one for each part; definitions stand in the module of the
-- part, proofs in its child modules, and tests in a child Tests.
--
-- - Prelude: the shared names, Boolean tests, lists, 64-bit arithmetic (add64, sub64, mul64 are
--   the operators modulo 2 ^ 64), and in Prelude/Bits the laws of & and | bit by bit.
-- - Errors: kernel/error.hpp. An operation that returns an Error returns its code beside the new
--   state.
-- - Queue: kernel/queue.hpp, ArrayQueue. push, pop and front are Push, Pop and Front. Queue/Fifo
--   is what it promises, Queue/Refine the refinement.
-- - Memory: kernel/memory_manager.hpp and kernel/memory_manager.cpp. get_bit, set_bit, free,
--   mark_allocated, allocate and stat are the methods of BitmapMemoryManager over the list of map
--   lines; probe is the inner loop of Allocate, allocate_from the outer. Memory/Uefi:
--   InitializeMemoryManager and InitializeHeap over the descriptors of the firmware
--   (kernel/memory_map.hpp).
-- - Tasks: kernel/task.hpp and kernel/task.cpp, TaskManager: rotate is RotateCurrentRunQueue,
--   settle its second half, switch_task, sleep, wakeup, change_level_running, send_message,
--   finish and wait_finish the methods of these names. Tasks/TaskObject: class Task and
--   kernel/message.hpp. Tasks/Queues: the containers.
-- - Fat: kernel/fat.hpp and kernel/fat.cpp: get_cluster_addr is GetClusterAddr, next_cluster
--   NextCluster; last_cluster and link_free are the two loops of ExtendCluster (extend_cluster),
--   first_free that of AllocateClusterChain (allocate_cluster_chain). The file allocation table
--   is the list of its entries.
-- - Files: kernel/fat.hpp and kernel/fat.cpp, DirectoryEntry and FileDescriptor: read, load and
--   write are the methods, read_from, seek and write_from their loops. A volume is its table and
--   the bytes of each cluster. A descriptor that reads stands at a place of the file's stream
--   (Files/Stream).
-- - Names: the names of kernel/fat.cpp: read_name, format_name, name_is_equal and set_file_name
--   are ReadName, FormatName, NameIsEqual and SetFileName; name83_from is the loop of
--   NameIsEqual.
-- - Directories: FindFile, AllocateEntry and CreateFile of kernel/fat.cpp are find_file,
--   allocate_entry and create_file; scan and search are the two loops of FindFile. A
--   DirectoryEntry* is a cluster and an index in it.
-- - Pci: kernel/pci.hpp and kernel/pci.cpp: make_address, the read_ functions, add_device,
--   scan_function, scan_device, scan_bus, scan_all_bus and read_bar are the functions of these
--   names; visit_from is the loop over devices, functions or buses. Pci/Msi: configure_msi and
--   what it calls. The configuration space is a parameter, the value that is read at each
--   address; writes are a list.
-- - Text: kernel/font.cpp: count_utf8_size, convert_utf8_to32 and is_hankaku are CountUTF8Size,
--   ConvertUTF8To32 and IsHankaku; write_string gives the characters that WriteString draws and
--   their distances.
-- - UsbMemory: kernel/usb/memory.hpp and kernel/usb/memory.cpp: ceil, alloc_mem and alloc_array
--   are Ceil, AllocMem and AllocArray; aligned and within_boundary are the two moves of AllocMem.
-- - XhciRing: kernel/usb/xhci/ring.hpp and kernel/usb/xhci/ring.cpp, class Ring: initialize,
--   copy_to_last and push are Initialize, CopyToLast and Push; link_trb is LinkTRB of
--   kernel/usb/xhci/trb.hpp. The memory comes from UsbMemory.
-- - Paging: kernel/paging.hpp and kernel/paging.cpp: page maps of four levels. Memory is the
--   entry at each index of each page, and a page map is the address of its page; the entries of a
--   page that is no page map stand for its words. setup_page_map takes the level as the depth of
--   its recursion, the level 0 stands for the decrement of num_4kpages, and setup_entries is its
--   loop. What is below an entry is an argument of the loop. cr3 is an argument. Paging/Identity
--   has the map that the kernel starts with, as words in tables at given addresses, and the
--   registers cr0 and cr3. In Paging/Copies are what changes page maps that are already there:
--   clean_page_maps, copy_one_page, copy_page_maps and handle_page_fault, with the levels counted
--   in the same way. What the processor reads at a linear address and what Load of a file does to
--   a page are arguments; the theorems that need it assume that the processor reads what the page
--   maps say, and that a load changes no page map. The kernel's identity map, with its huge
--   pages, is in the lower half of every root, and the page maps of programs are in the upper
--   half, from the entry 256 of the root on: the theorems take the page maps as a tree in the
--   upper half only and ask nothing of the lower one.
-- - Layers: kernel/layer.hpp and kernel/layer.cpp: new_layer, remove_layer, up_down, hide,
--   find_layer and get_height are the methods of LayerManager (raise is UpDown to a height of at
--   least 0), activate is ActiveLayer::Activate with its two blocks leave and enter. A Layer* is
--   the layer's id, and 0 the null pointer.
-- - Timers: kernel/timer.hpp and kernel/timer.cpp: add_timer and tick_timers are AddTimer and
--   Tick of TimerManager (expire is the loop of Tick), on_interrupt is LAPICTimerOnInterrupt over
--   the timers and the task manager. The priority queue is a sorted list.
-- - ArrayMap: kernel/usb/arraymap.hpp. get, put and delete are Get, Put and Delete over the list
--   of slots.
--
-- Fuel: the loop over the entries of a page map takes 512, since each round but the last goes on
-- to the next entry; WriteString takes a bound for its rounds, of which it needs one for each
-- character; the scan of the buses takes 33, since each bridge on the way takes one of the 32
-- places of the array; the search for capabilities takes 256, since a list that ends has no
-- address of a byte twice; Tick takes as fuel the number of timers and one, since each round
-- takes a due timer away and sets none that is due; the loops over the file allocation table take
-- its length (the search for free clusters goes through the table once, and a chain that visits
-- no cluster twice is no longer); the loops over the clusters of a directory take the length of
-- the table and one, and FindFile the length of the path, of which each call takes an element
-- away; Read takes the bytes that are left, Write the length and one, and Load the offset and
-- one, since each round but the last goes on by a byte at least; the outer loop of Allocate takes
-- the length of the range and one, since each round starts at a later frame of the range.
--
-- Undefined behaviour is a value: an operation of the task manager that would read the front of
-- an empty queue, index a run queue that is not there or use a pointer to an erased task returns
-- none. A Task* is the task's id.
--
-- Not modelled: input and output to devices, assembly, the loader, and what the manifest lists
-- with a reason.
pub mod Prelude
pub mod Errors
pub mod Queue
pub mod Memory
pub mod Tasks
pub mod Fat
pub mod Layers
pub mod Timers
pub mod ArrayMap
pub mod Files
pub mod Names
pub mod Directories
pub mod Pci
pub mod Text
pub mod UsbMemory
pub mod XhciRing
pub mod Paging
