-- ===== src/Ntp/Task.antt =====
-- components/esp_smoltcp/src/ntp.c: the whole of ntp_task over the socket calls.
use esp_smoltcp.Common.{
  ℕ, ℤ, zero, suc, ◌*◌, ◌<◌, ◌≡◌, refl, ap, ◌∙◌, Option, none, some, [], ◌∷◌, if◌then◌else◌, true,
  ◌^◌, ◌+◌,
}
use esp_smoltcp.Net.{NetApi, net_sock_valid}
use esp_smoltcp.Compat.Inet.{Text, parse_ipv4, print_ipv4, bytes_of}
use esp_smoltcp.Compat.Inet.Reversed.{parse_ipv4-print_ipv4, bytes_of_quad}
use esp_smoltcp.Ntp.{sizeof_sntp_pkt, request, ntp_round}

module _ (api : NetApi) where
  open api use {Net, udp_open, udp_sendto, udp_recvfrom, delay}

  -- The settings, the clock and the tick rate: CONFIG_NETSTACK_NTP_SERVER,
  -- CONFIG_NETSTACK_NTP_POLL_SECONDS, settimeofday and pdMS_TO_TICKS.
  pub record Client : Type 0 where
    pub server : Text
    pub poll_seconds : ℕ
    pub set_time : ℤ → Net → Net
    pub ms_to_ticks : ℕ → ℕ

  module _ (c : Client) where
    open c use {server, poll_seconds, set_time, ms_to_ticks}

    -- The part before the loop: the server's address and the socket, `none` where the task ends.
    unfoldable pub ntp_setup : ℕ → Net → Option (ℕ × ℕ) × Net
    ntp_setup iface n = elim (parse_ipv4 server) [
      | none ↦ (none, n)
      | some ip ↦
          let (sock, n1) = udp_open iface 0 n in
          if net_sock_valid sock then (some (ip, sock), n1) else (none, n1)
    ]

    abbrev adjust : Option ℤ → Net → Net
    adjust none n = n
    adjust (some t) n = set_time t n

    -- One pass of the loop: request, answer, wait.
    unfoldable pub ntp_pass : ℕ → ℕ → Net → Net
    ntp_pass ip sock n =
        let (r, n1) = udp_sendto sock request ip 123 n in
        let (got, bytes, src_ip, src_port, n2) = udp_recvfrom sock sizeof_sntp_pkt 5000 n1 in
        delay (ms_to_ticks (poll_seconds * 1000)) (adjust (ntp_round got bytes) n2)

    unfoldable pub ntp_loop : ℕ → ℕ → ℕ → Net → Net
    ntp_loop zero ip sock n = n
    ntp_loop (suc k) ip sock n = ntp_loop k ip sock (ntp_pass ip sock n)

    -- The task up to the end of pass `k`.
    unfoldable pub ntp_task : ℕ → ℕ → Net → Net
    unfolding ntp_setup
    ntp_task k iface n =
        let (ready, n1) = ntp_setup iface n in
        elim ready [ none ↦ n1 | some (ip, sock) ↦ ntp_loop k ip sock n1 ]

    -- If the server is configured as a dotted quad and the socket opens, the requests go to the
    -- address with the octets in the other order.
    ntp_setup_reverses :
        (o1 o2 o3 o4 iface : ℕ) (n : Net)
        → o1 < 256
        → o2 < 256
        → o3 < 256
        → o4 < 256
        → server ≡ print_ipv4 o1 o2 o3 o4
        → net_sock_valid (udp_open iface 0 n).0 ≡ true
        → (ip : ℕ) × (ntp_setup iface n
            ≡ (some (ip, (udp_open iface 0 n).0), (udp_open iface 0 n).1))
          × (bytes_of ip ≡ o4 ∷ o3 ∷ o2 ∷ o1 ∷ [])
    unfolding ntp_setup
    ntp_setup_reverses o1 o2 o3 o4 iface n h1 h2 h3 h4 e open_ok =
        let parsed = ap parse_ipv4 e ∙ parse_ipv4-print_ipv4 o1 o2 o3 o4 h1 h2 h3 h4 in
        (
          o1 * 2 ^ 24 + o2 * 2 ^ 16 + o3 * 2 ^ 8 + o4,
          rw (parsed, ntp_setup) (rw open_ok refl),
          bytes_of_quad o1 o2 o3 o4 h1 h2 h3 h4,
        )
