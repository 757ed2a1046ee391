-- ===== src/Lib.antt =====
-- A verification of the firmware for the RISC-V core of the V85x: the message channel to the Linux
-- side, and the parts of the board's own code that it stands on.
--
-- The program's parts, from below:
--   * utils/ringbuffer.c, a byte ring (RingBuffer.antt; RingBuffer/Queue is the queue that a client
--     sees, RingBuffer/Refine the refinement).
--   * openamp/openamp/virtio/virtqueue.c with include/openamp/virtio_ring.h, the queue of buffers that
--     two cores share (Virtqueue.antt). Virtqueue/State has the structures: `Vring` is the memory that
--     both sides see, `Virtqueue` what one side keeps for itself. Virtqueue/Ring has the loops over the
--     descriptor table, Virtqueue/Driver and Virtqueue/Device the calls of either side, and
--     Virtqueue/Events those on notifications; each C function has a definition of its name. A call
--     returns a `Run`: a result, a failed VQASSERT, or a walk that has spent its fuel. `Env` says
--     whether VQUEUE_DEBUG is defined and gives the two address translations, which are libmetal's.
--     Virtqueue/Owner says who holds each descriptor (`Owns`), Virtqueue/Offer and Virtqueue/Reclaim are
--     about the driver's calls on it, and Virtqueue/Transfer puts two sides on one ring: `act` is one
--     call of one side, `promise` what a client is promised of it on a view of four lists.
--   * openamp/openamp/rpmsg/rpmsg.c with its headers, endpoints over a transport (Rpmsg.antt). The
--     operations of the transport are a record of functions, `DeviceOps`, and the bitmap of libmetal is
--     a record with the laws that the code relies on, `Bitmap`.
--   * openamp/openamp/rpmsg/rpmsg_virtio.c, messages in the buffers of two virtqueues
--     (RpmsgVirtio.antt). The headers in shared memory are a function of the address of their buffer.
--     RpmsgVirtio/Init is its start on a virtio device.
--   * include/openamp/virtio.h, the table of functions through which a virtio device is used (Virtio.antt),
--     and openamp/openamp/remoteproc/remoteproc_virtio.c, the device that a resource table in shared
--     memory describes (Virtio/Rproc.antt). What a vring has for a queue is nothing, a queue, or memory
--     that has been given back. What libmetal does with the I/O region of the table is a record of
--     functions, `BlockIo`.
--   * openamp/openamp/remoteproc/rsc_table_parser.c, the parser of the resource table of an image
--     (Remoteproc/Table.antt). A table is its header, its array of offsets, and a function from an offset to
--     the resource there; libmetal's bitmap and the operations of the remote processor are a record of
--     functions, `Platform`.
--   * openamp/openamp/remoteproc/remoteproc.c, a remote processor: its life (Remoteproc/Life.antt, with
--     the diagram of its states in Remoteproc/Life/Diagram) and its memories (Remoteproc/Memory.antt).
--     The callbacks of its driver are a record of functions, `RemoteprocOps`, and the I/O regions of
--     libmetal another, `MetalIo`.
--   * openamp/openamp/remoteproc/elf_loader.c, the loader of ELF images (Remoteproc/Elf.antt,
--     Remoteproc/Elf/Load.antt), with the loops of remoteproc_load over their headers and their data
--     (Remoteproc/Elf.antt, Remoteproc/Elf/Data.antt). A part of an image is a function
--     from an offset to a byte, and the fields of headers are read from the bytes; `ImageStore` is where an
--     image comes from.
--   * utils/nutheap.c, the memory allocator (Heap.antt, and Heap/Realloc.antt for NutHeapRootRealloc).
--     The free list is a list of nodes, and the size word of a block is a function of its address.
--     Heap/Inv has the well-formedness of the list, Heap/History a client's calls one after the other.
--   * arch/riscv/sun8i-v85x/sunxi_irq.c, the tables of interrupt handlers (Board/Irq.antt), and
--     sunxi_mailbox.c beside it, the mailbox through which the two cores notify each other
--     (Board/Mailbox.antt). Channels are linked in memory; the registers are a parameter, with the
--     behaviour of the mailbox as named hypotheses (`Outbox`, `Inbox`).
--   * Beside them, sunxi_gpio.c, the pins (Board/Gpio.antt), sunxi_usart.c, the serial ports, whose
--     received bytes go through the byte ring (Board/Usart.antt), and system.c, the start of the core and
--     the waits (Board/System.antt). Registers are a state with a read and a write (`Storage`, `Line`);
--     the tick is a function of how often it has been read.
--   * sunxi_virt_uart.c, sunxi_openamp_create_endpoint of sunxi_openamp.c and the lines of main.c that use
--     them, two serial lines over endpoints of one rpmsg device (Board/VirtUart.antt). A line is known by
--     the number of the endpoint within it.
--
-- Numbers are natural numbers, and the wrap-around of a C type is written out (`% u16`, `% u32`).
-- Pointers are numbers, or an Option where NULL matters. A table in memory is a function of its index.
-- Locks are not modelled: each locked section is one step. Caches, logs and the copy of message
-- payloads are not modelled.
--
-- Fuel: `walk_chain` follows the `next` fields of a chain, which ends only if the chain does. Its fuel
-- is one more than the size of the table, and a chain holds each descriptor once at most. `wait_tx`
-- waits for the other core: 15000 ticks in the code, one round each. `rpmsg_virtio_rx_callback` takes
-- messages as long as there are any. The two waits for the other core to be ready end when it is, and
-- `rpmsg_deinit_vdev` takes one round for an endpoint. The walks of the mailbox along its channels take
-- one round for a channel, and its waits as long as the other core leaves words in it or gives new
-- ones. The waits of sunxi_usart_putc end when the port is ready, and those of system.c when the tick has
-- gone on. The loop over the headers of an image needs six rounds at most, and the search for a segment
-- one for each segment and one more, and so does the loop over the data, for images with at most 255
-- segments. The fuel of all these is an argument.
--
-- Not modelled: libmetal and utils/printf.c, which are other projects' libraries; what remoteproc_load does
-- before, between and after its loops, remoteproc_load_noblock and remoteproc_create_virtio; the mmio
-- device and the rpc services, which this firmware does not run; output (utils/debug.c, trap.c);
-- sunxi_openamp_init, which strings together calls of libmetal with calls
-- that are modelled apart; the headers of the processor core.
pub mod Base
pub mod Heap
pub mod Remoteproc
pub mod RingBuffer
pub mod Virtqueue
pub mod Rpmsg
pub mod Virtio
pub mod RpmsgVirtio
pub mod Board
