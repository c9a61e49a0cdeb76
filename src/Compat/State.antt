-- ===== src/Compat/State.antt =====
-- The data of src/fd_table.h and src/loopback.c: the table of descriptors and the loopback slots.
-- A pointer to an `fd_entry_t` is its index in `s_table`.
use esp_smoltcp.Common.{ℕ, Bool, true, false, Option, none, List, modify}
use esp_smoltcp.Types.{Errno}

-- `fd_kind_t`
pub data Kind : Type 0 where
  free tcp udp tcp_listen : Kind

abbrev pub is_free : Kind → Bool
is_free free = true
is_free tcp = false
is_free udp = false
is_free tcp_listen = false

abbrev pub is_tcp : Kind → Bool
is_tcp free = false
is_tcp tcp = true
is_tcp udp = false
is_tcp tcp_listen = false

abbrev pub is_udp : Kind → Bool
is_udp free = false
is_udp tcp = false
is_udp udp = true
is_udp tcp_listen = false

abbrev pub is_tcp_listen : Kind → Bool
is_tcp_listen free = false
is_tcp_listen tcp = false
is_tcp_listen udp = false
is_tcp_listen tcp_listen = true

-- `lo_msg_t`: a queued datagram. `len` is the stored `uint16_t`.
pub record Msg : Type 0 where
  pub src_be : ℕ
  pub src_port : ℕ
  pub len : ℕ
  pub bytes : List ℕ

-- `fd_entry_t`, without the event group, which nothing waits on. `lo_rx` is `none` for NULL;
-- `pool` is the array of `pool_len` sockets, `none` for NULL.
pub record Entry (Q : Type 0) : Type 0 where
  pub kind : Kind
  pub nonblocking : Bool
  pub connected : Bool
  pub loopback : Bool
  pub lo_rx : Option Q
  pub rcv_timeout_ms : ℕ
  pub snd_timeout_ms : ℕ
  pub sock : ℕ
  pub pool : Option (List ℕ)
  pub pool_len : ℕ
  pub pool_next : ℕ
  pub port : ℕ
  pub local_ipv4_be : ℕ
  pub local_port : ℕ
  pub iface : ℕ

-- `lo_slot_t`: port 0 is a free slot, `fd` is `none` for NULL.
pub record Slot : Type 0 where
  pub port : ℕ
  pub fd : Option ℕ

abbrev pub empty_slot : Slot
empty_slot = record { port = 0; fd = none }

-- `s_table` of fd_table.c, `s_slots` of loopback.c, what lies below the socket calls, and `errno`.
pub record Compat (Q N : Type 0) : Type 0 where
  pub table : List (Entry Q)
  pub slots : List Slot
  pub net : N
  pub errno : Errno

-- The build's settings: LWIP_SOCKET_OFFSET, CONFIG_LWIP_COMPAT_LISTENER_POOL,
-- CONFIG_LWIP_COMPAT_DEFAULT_IFACE_ETH and the tick rate.
pub record Config : Type 0 where
  pub offset : ℕ
  pub listener_pool : ℕ
  pub prefer_eth : Bool
  -- pdMS_TO_TICKS
  pub ms_to_ticks : ℕ → ℕ

module _ {Q N : Type 0} where
  -- A write through an `fd_entry_t` pointer.
  abbrev pub put_entry : ℕ → (Entry Q → Entry Q) → Compat Q N → Compat Q N
  put_entry i f s = record s { table = modify s.table i f }

  abbrev pub set_errno : Errno → Compat Q N → Compat Q N
  set_errno e s = record s { errno = e }

  abbrev pub put_net : N → Compat Q N → Compat Q N
  put_net n s = record s { net = n }
