-- ===== src/Lib.antt =====
-- A model of Firecracker, a virtual machine monitor in Rust, and of what its components promise.
-- Paths are those of the repository.
--
-- Parts of the program. The VMM (src/vmm) builds a microVM from the requests of the API server
-- (src/api_server) and runs its vCPUs; the guest reaches the emulated devices (src/devices) over
-- MMIO and virtio queues in guest memory. Block and net devices spend tokens of a rate limiter
-- (src/rate_limiter) for each request, and stop at the limiter's timer when they have none. Frames
-- for the metadata service (src/mmds) do not leave the VMM: the small network stack src/dumbo answers
-- them, with its own TCP. Modelled are the parts with the most state of their own:
--
--   RateLimiter  src/rate_limiter/src/lib.rs. Bucket is `TokenBucket`: `new`, `auto_replenish`,
--                `reduce`, `force_replenish`; Limiter is `RateLimiter`: `consume`,
--                `manual_replenish`, `event_handler`, `update_buckets`. The clock is an argument of
--                the calls that read it. `f64` and the timer of the crate timerfd are parameters.
--                Below Bucket and Limiter stand the theorems.
--   Queue        src/devices/src/virtio/queue.rs. Descriptor is `DescriptorChain`, Rings is `Queue`,
--                Used has `add_used`. Guest memory is of the crate vm-memory: Memory has its
--                operations as a record and what they promise as `IsMemory`. A panic is an
--                `Outcome`. Chain, Drain, Used, Kick and Notify have the theorems, on a chain, on
--                pops in a row, on the used ring and on notifications. Flat is a memory of
--                bytes for the tests. The memory changes between calls and not within one, but for
--                the calls' own writes.
--   Balloon      src/devices/src/virtio/balloon/utils.rs: `compact_page_frame_numbers`, with Sorting
--                for the sort and Ranges for the ranges it gives.
--   Bus          src/devices/src/bus.rs: which device has an address. The map is a list in
--                descending order. Owners says what `insert` keeps.
--   Mmio         src/devices/src/virtio/mmio.rs. `MmioTransport` with `set_device_status` and what it
--                calls; Registers has `read` and `write`. The device is a parameter, with the methods
--                of the trait `VirtioDevice` and what they promise of its queues. Active, History and
--                Failed have the theorems, on one access, on runs of accesses and on failed devices.
--   Block        src/devices/src/virtio/block/request.rs: Request is `Request::parse` on a chain of
--                Queue. Parse says what a request that was read has, Accept which chains are read.
--                Finish is `rate_limit` and what a request ends with, Process is
--                `Request::process`; the IO engine is a parameter. Answers has the theorem.
--   Tcp          src/dumbo/src/tcp/mod.rs, src/dumbo/src/tcp/connection.rs and, for the segments,
--                src/dumbo/src/pdu/tcp.rs. Seq has the comparisons of sequence numbers, Segment what
--                a segment says and how it is written, Connection the state with its small
--                operations, Receive is `receive_segment`, Transmit is `write_next_segment`. Below
--                them stand the theorems. A segment is the view that its accessors give: bytes, ports
--                and checksums of a header are not modelled.
--   Pdu          src/dumbo/src/pdu: Bytes is bytes.rs, slices of bytes in network order; Ethernet is
--                ethernet.rs with `MacAddr` of src/utils/src/net/mac.rs, Arp is arp.rs, Ipv4 is
--                ipv4.rs and Udp is udp.rs with the checksum of mod.rs that it shares with TCP.
--                Checksum has the sums with their carries and Roundtrip the theorems. Addresses
--                of IPv4 are numbers.
--   Vsock        src/devices/src/virtio/vsock: TxBuf is csm/txbuf.rs, the ring buffer between a
--                guest and a slow host socket; PendingRx is `PendingRxSet` of csm/mod.rs; Packet
--                is packet.rs, with Packet.Chain for packets read off a chain of Queue; Connection
--                is `VsockConnection` of csm/connection.rs: Send is `send_pkt` with Transfer for
--                `send_bytes`, Recv is `recv_pkt` and Notify is `notify`. Delivers, Sends,
--                Receives, Credit and Drains have the theorems, and Offers what `recv_pkt` may
--                give. The stream, the clock and the regions of guest memory are parameters. RxQ
--                is unix/muxer_rxq.rs and KillQ is unix/muxer_killq.rs, the queues of what waits
--                for the guest and of the connections to be closed. Muxer is `VsockMuxer` of
--                unix/muxer.rs, over all of these: Mutation is `apply_conn_mutation`, Sweep has
--                `sweep_killq` and `add_connection`, Ports the ports of the host side, Channel
--                `recv_pkt` and `send_pkt`, Events `handle_event` and `notify`. The sockets and
--                the nested epoll are parameters, and a call reads the clock once. Sound, Calls
--                and Heard say what the muxer relies on in a connection; Queued, Tracked, Kept,
--                Sweeps, Upkeep and Noticed what each operation keeps; Turns, Receive and Loop are
--                about the loop of `recv_pkt`; Reach and Ports.Fresh have the theorems.
--   Base         lists, maps, tests, machine words and their bits, which all share.
--
-- Numbers are natural numbers; a Rust integer of w bits has `% 2 ^ w` where the code's arithmetic
-- can wrap, as in the release profile. Results and errors of the code are data, and a method that
-- mutates is a function that returns the new state beside its result. Where a method is long, its
-- parts are functions of their own, in the order of the source.
--
-- Loops: Euclid's algorithm recurses on `Acc`. The loop over the options of a TCP segment has fuel
-- for one round for each byte and one more, since a round that goes on passes a byte, but for one
-- kind of option. `TxBuf::flush_to`, which calls itself, has fuel for three calls: one writes to
-- the end of the ring, one from its start, and one finds it empty. The loop of the muxer's
-- `recv_pkt` has fuel for one round for each item of the RX queue and one more, and the loop of
-- `sweep_killq` one for each item of the kill queue and one more; `sweep_killq`, which calls
-- itself, has two calls, since a kill queue that was just built again has nothing expired;
-- `allocate_local_port` has a round for each port that is used and one more. The loop that adds
-- the carries of a checksum has three rounds, which are enough for 32 bits. Walks of a descriptor
-- chain and runs of calls are data types of their own, with no bound.
--
-- Not modelled: the VMM's set-up of a microVM, KVM and vCPUs, CPUID, the loop over the queue and
-- the IO engines of the block device, the device of vsock, the net device, the queues of the
-- balloon device, the legacy devices, MMDS, the rest of dumbo, jailer, seccomp, snapshots,
-- io_uring, the logger and the API, and code that is generated (arch_gen, net_gen, virtio_gen).
pub mod Balloon
pub mod Base
pub mod Block
pub mod Bus
pub mod Mmio
pub mod Pdu
pub mod Queue
pub mod RateLimiter
pub mod Tcp
pub mod Vsock
