-- ===== src/Lib.antt =====
-- A model of the core of rinasense, a RINA network stack for microcontrollers, with the theorems
-- that make it correct. Paths are from the root of the repository.
--
-- The parts and how they interact. A shim IPC process (components/ShimIPCP) carries RINA over
-- Ethernet: it keeps one flow, with a port, for each source of frames, and it registers
-- applications in an ARP cache, which the ARP packets of components/ShimIPCP/ARP826.c ask and fill.
-- The normal IPC process (components/IPCP) sends management messages to the RIB daemon
-- (components/Ribd), which keeps the application connections, the requests that wait for a
-- response, and the objects whose methods the other components provide. The relaying and
-- multiplexing task (components/Rmt) takes data units from the ports of the shim and gives them to
-- the RIB or to the EFCP container (components/EFCP), which keeps the connections, orders their
-- data units and posts them to the flow allocator. All of them take numbers, addresses, names and
-- network buffers from components/Common.
--
-- Which file models what:
-- - Base: numbers, Boolean tests, lists and single bits of a word.
-- - Common/BitArray: components/Common/include/common/bit_array.h, on 32-bit units and with the
--   masks of the source.
-- - Common/NumMgr: components/Common/num_mgr.c. The endless loop of `ulNumMgrAllocate` is a
--   recursion on fuel, its argument. `numCnt` rounds are enough while a number other than the last
--   one allocated is free; there is a full manager for which no number of rounds is.
-- - Common/Gpha: components/Common/rina_gpha.c, protocol and hardware addresses; `pxNameToGPA` is in
--   Common/RinaName/Address.
-- - Common/RinaName: components/Common/rina_name.c, application process names. `Name` is `rname_t`
--   with the memory behind the structure as the list `block`.
-- - Common/Netbuf: components/Common/netbuf.c and the encapsulation of components/Rmt/du.c. A chain
--   is the list of its netbufs, and a pointer into it is the chain split there. A netbuf knows the
--   start of its memory by a number, so that freeing can be counted.
-- - ShimIpcp/ArpCache: components/ShimIPCP/cache.c. `ArpCache` is `struct ARPCache`; its
--   `create`, `add`, `remove`, `lookup_gha`, `lookup_gpa` and `refresh` are the functions of the
--   cache, and ArpCache/Rows has its abstract view as a table from addresses to addresses.
-- - ShimIpcp/Arp: components/ShimIPCP/ARP826.c. `get_request` and `get_response` write packets,
--   `extract_request_data` reads them, and Arp/Process is `eARPProcessPacket`. A packet is the list
--   of its bytes; a read or a write outside of it is a fault.
-- - ShimIpcp/Shim: components/ShimIPCP/ShimIPCP.c. `Shim` is `struct ipcpInstanceData_t` with
--   `xFlows` as a list of pointers, which are NULL, to a flow, or to memory that was freed.
--   Shim/Frames is `vShimHandleEthernetPacket` and what it calls, Shim/Applications the registration
--   of applications. `reserve_port` is `unIpcManagerReservePort` of components/IPCP/IpcManager.c over
--   Common/NumMgr, with its fuel. What leaves the shim is a list of events.
-- - Ribd: the data of components/Ribd. Ribd/Connections is Ribd_connections.c, Ribd/Objects is
--   Ribd_obj.c, Ribd/Pending the table of pending requests of Ribd.c, Ribd/Messages CdapMessage.c,
--   Ribd/Requests and Ribd/Wait Ribd_requests.c, and Ribd/Handlers the handlers that
--   `xRibNormalIncoming` calls in Ribd.c.
--   `RibState` is `Ribd_t`; the mutex is a flag, and taking it twice blocks for ever. An `Outcome`
--   says whether a call returns, blocks, or accesses memory it must not.
-- - Efcp: components/EFCP/EFCP.c and dtp.c. `Container` is `struct efcpContainer_t` with its instances
--   as a heap, so that an instance that nothing finds any more still counts. Efcp/Dtp is dtp.c,
--   Efcp/Units receives and writes data units, Efcp/Connections creates, changes and destroys
--   connections. A failed assertion is a crash, and a sequence number has 32 bits that wrap.
-- - Rmt: components/Rmt/Rmt.c with include/rmt.h and include/pci.h. `Rmt` is `struct rmt_t`; Rmt/Pdu
--   is `xRmtReceive` and what it calls, Rmt/Send is `xRmtSendPortId`. A data unit is the list of the
--   bytes of one buffer, and a field of the header is a byte at its offset.
-- The modules below a component hold its proofs; the Tests modules run it at concrete inputs.
--
-- Loops over a table are recursions on the list of its rows, so they need no fuel, and a table has
-- the size its list has: five connections, ten requests and ten objects in the source. A failed
-- allocation is a Boolean argument of the operation. Strings are lists of bytes before their NUL,
-- and `size_t` has 64 bits where a subtraction wraps.
--
-- The build is one with NDEBUG, where what stands under `#ifndef NDEBUG` is left out, and in which a
-- failed RsAssert stops the program, as configASSERT does on FreeRTOS.
--
-- What is not modelled, and why. The nanopb library under components/CdapProto, the message
-- encoders of components/SerDes, the POSIX layer of FreeRTOS and the network drivers are other
-- projects' code or glue to it: what the RIB's output function returns is a parameter. The
-- methods of RIB objects and the response callbacks belong to other components and are functions
-- from their arguments to what they return. Logging, printing and the release of memory leave no
-- trace in the model, except where a component frees what it uses again. The pools of
-- components/Common/rsrc.c are another project's library: whether they give memory is an argument.
-- The N-1 process that writes, the management side of the normal IPC process and the EFCP container
-- are functions that the RMT is given, and the binding of a port is one that the shim is given. The
-- normal IPC process, the flow allocator, the enrollment and the API of applications are left out:
-- they are driven by encoded messages and by the event task of the portability layer. So are the
-- loopback RIB, whose output calls its own input, and the start of the network interface.
pub mod Base
pub mod Common
pub mod Ribd
pub mod Rmt
pub mod Efcp
pub mod ShimIpcp
