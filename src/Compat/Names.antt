-- ===== src/Compat/Names.antt =====
-- src/netdb_wrap.c: getaddrinfo and freeaddrinfo on a heap of blocks, and gethostbyname with its
-- static buffers. A pointer is the number of its block, `none` is NULL. The C library's heap
-- answers a `calloc` or refuses it; the resolver is smoltcp_resolve of the Rust core.
pub mod Blocks
pub mod Leaks
pub mod Host
use esp_smoltcp.Common.{
  ℕ, zero, ℤ, pos, negsuc, is_zero, ◌-◌, ◌%◌, Bool, true, not, Option, none, some, if◌then◌else◌,
  suc,
}
use esp_smoltcp.Types.{u16_mod}
use esp_smoltcp.Compat.Env.{Env, State}
use esp_smoltcp.Compat.State.{put_net}
use esp_smoltcp.Compat.Fd.{fd_default_iface}
use esp_smoltcp.Compat.Address.{SockAddr, swap16}
use esp_smoltcp.Compat.Inet.{Text, parse_ipv4}
use esp_smoltcp.Compat.Names.Blocks.{
  AddrInfo, info_block, addr_block, zero_info, zero_addr, Heap, calloc, store, release, find, ◌>>=◌,
}

-- The results of getaddrinfo, 0 first.
pub data Eai : Type 0 where
  eai_ok eai_fail eai_again eai_noname eai_memory : Eai

-- What the wrappers call outside their component, and the settings of the build.
pub record Resolver (Net : Type 0) : Type 0 where
  -- net_stack_smoltcp_handle
  pub handle : ℕ → Net → Option ℕ
  -- smoltcp_resolve: handle, name, server, timeout in ms. What it stores in `*out_be`, if it does.
  pub resolve : Option ℕ → Text → ℕ → ℕ → Net → ℤ × Option ℕ × Net
  pub atoi : Text → ℤ
  -- CONFIG_NETSTACK_DNS_PRIMARY and CONFIG_LWIP_COMPAT_DNS_TIMEOUT_MS
  pub dns_primary : Text
  pub dns_timeout : ℕ

-- `(uint16_t)n`
abbrev pub to_u16 : ℤ → ℕ
to_u16 (pos n) = n % u16_mod
to_u16 (negsuc n) = u16_mod - suc (n % u16_mod)

abbrev pub or_else : Option ℕ → ℕ → ℕ
or_else none d = d
or_else (some v) d = v

-- What getaddrinfo returns and stores in `*res`, and the heap after it.
pub record Answer : Type 0 where
  pub code : Eai
  pub res : Option ℕ
  pub heap : Heap

-- The `struct sockaddr_in` and the `struct addrinfo` that are filled in.
abbrev pub filled_addr : ℕ → ℕ → SockAddr
filled_addr port addr = record { is_inet = true; port_be = swap16 port; addr_be = addr }

-- The socket type of the hints, SOCK_STREAM without hints.
abbrev pub sock_stream : ℕ
sock_stream = 1

abbrev pub filled_info : Option ℕ → ℕ → AddrInfo
filled_info hints sin = record zero_info {
  is_inet = true;
  socktype = or_else hints sock_stream;
  addr = some sin;
}

-- `free(ai); free(sin); return EAI_MEMORY;`
abbrev pub out_of_memory : Option ℕ → Option ℕ → Heap → Option Answer
out_of_memory ai sin h = do
  h1 ← release ai h
  h2 ← release sin h1
  some (record { code = eai_memory; res = none; heap = h2 })

-- The assignments to the two blocks.
abbrev pub fill_in : ℕ → ℕ → Option ℕ → ℕ → ℕ → Heap → Option Answer
fill_in p q hints port addr h = do
  h1 ← store q (addr_block (filled_addr port addr)) h
  h2 ← store p (info_block (filled_info hints q)) h1
  some (record { code = eai_ok; res = some p; heap = h2 })

-- getaddrinfo from the two calls of calloc on; `none` for a misuse of the heap. `ai_given` and
-- `sin_given` tell that the heap answers the calls.
unfoldable pub build_answer : Bool → Bool → Option ℕ → ℕ → ℕ → Heap → Option Answer
build_answer ai_given sin_given hints port addr h =
    let (ai, h1) = calloc ai_given (info_block zero_info) h in
    let (sin, h2) = calloc sin_given (addr_block zero_addr) h1 in
    elim ai [
      | none ↦ out_of_memory none sin h2
      | some p ↦ elim sin [
        | none ↦ out_of_memory (some p) none h2
        | some q ↦ fill_in p q hints port addr h2
      ]
    ]

-- The loop of freeaddrinfo; `none` for a misuse of the heap, or if the fuel is short.
unfoldable pub freeaddrinfo : ℕ → Option ℕ → Heap → Option Heap
freeaddrinfo fuel none h = some h
freeaddrinfo zero (some p) h = none
freeaddrinfo (suc fuel) (some p) h = elim (find p h) [
  | none ↦ none
  | some b ↦ elim b [
    | addr_block a ↦ none
    | info_block i ↦ do h1 ← release i.addr h; h2 ← release (some p) h1; freeaddrinfo fuel i.next h2
  ]
]

module _ (env : Env) where
  open env use {Net}

  module _ (names : Resolver Net) where
    open names use {handle, resolve, atoi, dns_primary, dns_timeout}

    unfoldable pub pick_iface : Net → Option ℕ
    pick_iface n = handle (fd_default_iface env n) n

    unfoldable pub dns_server_be : ℕ
    dns_server_be = or_else (parse_ipv4 dns_primary) 0

    abbrev port_of : Option Text → ℕ
    port_of none = 0
    port_of (some t) = to_u16 (atoi t)

    -- `has_res` tells that `res` is not NULL; `hints` is their `ai_socktype`.
    unfoldable pub getaddrinfo :
        Bool
        → Bool
        → Option Text
        → Option Text
        → Option ℕ
        → Bool
        → Heap
        → State env
        → Option Answer × State env
    getaddrinfo ai_given sin_given node service hints has_res h s =
        let failed : Eai → Option Answer = λ c. some (record { code = c; res = none; heap = h }) in
        elim node [
          | none ↦ (failed eai_fail, s)
          | some name ↦ if not has_res then (failed eai_fail, s) else elim (pick_iface s.net) [
            | none ↦ (failed eai_again, s)
            | some p ↦
                let (r, out, n) = resolve (some p) name dns_server_be dns_timeout s.net in
                if is_zero r
                then (
                  build_answer ai_given sin_given hints (port_of service) (or_else out 0) h,
                  put_net n s,
                )
                else (failed eai_noname, put_net n s)
          ]
        ]
