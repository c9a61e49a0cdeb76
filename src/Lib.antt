-- ===== src/Lib.antt =====
-- esp-smoltcp: a TCP/IP stack for ESP-IDF in C over the Rust crate smoltcp, and a shim that puts
-- the socket calls of lwIP on top of it.
--
-- The parts, from the wire up:
--   * components/esp_smoltcp/src/esp_smoltcp.c owns the interfaces, a pool of frames and the poll
--     task. Drivers post frames (net_stack_post_rx); the task drains them to a layer-2 tap or to
--     the core (poll_iface), polls the core, which transmits through smoltcp_glue_tx_cb, reports
--     changes of the IP state and sleeps until the soonest deadline.
--   * components/esp_smoltcp/src/esp_smoltcp_sock.c are the socket calls net_tcp_*, net_udp_* and
--     net_mcast_*, each of which finds its interface in the socket number.
--   * components/esp_smoltcp/src/ntp.c is a client of these calls, src/ptp.c a tap.
--   * components/esp_smoltcp_lwip_compat/src wraps the calls of lwIP: fd_table.c gives out
--     descriptors, loopback.c keeps datagrams to 127.0.0.0/8 in memory, sock_wrap.c and
--     select_wrap.c are the wrapped calls, netdb_wrap.c are the calls on names and on addresses as
--     text, esp_netif_shim.c stands in for esp_netif.
--   * components/esp_smoltcp_glue/src is the Rust glue below the C code: lib.rs gives the smoltcp
--     crate a device, keeps an IfaceCtx per interface and exports the calls of smoltcp_glue.h; dns.rs
--     resolves names over UDP.
--   * examples/eth_basic is an application that starts the stack.
--
-- The files:
--   * Common: numbers, lists, integers; Common/Queue is the interface of a FreeRTOS queue, with its
--     documented behaviour as laws, and Common/Fifo a queue that has them. Types: result codes.
--   * Stack is esp_smoltcp.c and esp_smoltcp_sock.c. Stack/State has their data: the frames of
--     s_frame_pool are named by index, the callbacks made are kept in a list. Stack/Glue is the
--     interface to the Rust core (smoltcp_glue.h), the driver and the clock, the parameter `Base`
--     with the queues. Frames: frame_pool_init, net_frame_alloc, net_frame_free. Tap:
--     net_stack_l2_tap, dispatch_tap. Iface: net_stack_post_rx, net_stack_link_event,
--     smoltcp_glue_tx_cb, the Ethernet input, statistics. Task: poll_iface and the deadline. Setup:
--     net_stack_init, esp_smoltcp_attach_eth. Query: net_iface_get and the queries. Sock and
--     Datagram: the socket calls. Round: a round of net_stack_task. Run: all calls that drivers,
--     the task and the application make, as steps on the stack and on the frames that the drivers
--     hold; its children are about the states that are reached. Ptp: ptp_rx.
--   * Ntp is the packet and the time of ntp.c, Ntp/Task its task.
--   * Net is the interface between the components: the calls of esp_smoltcp that the shim makes.
--   * Compat is the shim over `Env`, its settings with the queues and `Net`. State: fd_entry_t, the
--     slots. Loopback, Fd: loopback.c, fd_table.c. Socket, Accept, Transfer, Options: sock_wrap.c.
--     Select, Poll: select_wrap.c. Netif: esp_netif_shim.c. Inet: inet_pton and inet_ntop of
--     netdb_wrap.c with the parser of components/esp_smoltcp_glue/src/lib.rs behind them. Names: the
--     other calls of netdb_wrap.c, on a heap (Names/Blocks) and on static buffers (Names/Host).
--     Loopback/Mailboxes is what the loopback promises, and Loopback/Refine relates the two.
--     Run: the wrappers of sock_wrap.c as steps in any order, and what all entries keep.
--   * Core is the Rust glue over `Crate`, the calls of the smoltcp crate with what its
--     documentation says of addresses. Device: the transmit pool, the inbox and the tokens; Ctx:
--     IfaceCtx, its poll and its configuration; Ctx/Query: the queries; Ctx/Sock: the table of ids
--     and the calls on sockets; Ctx/Calls: the calls that change a context as steps. Dns: the query
--     and the parser of a response, with the format of RFC 1035 in Dns/Wire and what a read gives in
--     Dns/Reader. Resolve: smoltcp_resolve. Machine fills Stack's Glue with all contexts, their pool
--     and the board, and a panic ends its world. Outcome: an index out of range and a loop without
--     an end as values.
--   * Linked puts the shim over the socket calls of Stack: it fills Net with them.
--   * Example is examples/eth_basic/main/main.c.
--   * The modules below a component's are its lemmas, named for what they prove; Samples and Tests
--     are concrete inputs and runs on them.
--
-- A function of C is one function on the state, which returns its result and the new state; a call
-- that blocks or loops takes fuel and answers `none` if it runs out. The fuel that is enough is the
-- number of items that wait, or of bytes and waits that are left before the deadline, and one more.
-- Machine words wrap where the code lets them. Results of calls of ESP-IDF that can fail are
-- arguments. A lock makes its region one step; the other tasks act inside the calls that wait.
--
-- Not modelled: the smoltcp crate, which is not in the repository and is the parameter `Crate` of
-- Core (Stack takes all that lies below it as the parameter Glue, which Core/Machine fills); the
-- destruction of an interface, which no C code calls; the endless loops of the tasks beyond any
-- number of rounds; the board's pins of the example; logging.
pub mod Common
pub mod Compat
pub mod Core
pub mod Example
pub mod Linked
pub mod Net
pub mod Ntp
pub mod Stack
pub mod Types
