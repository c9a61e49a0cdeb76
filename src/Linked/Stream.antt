-- ===== src/Linked/Stream.antt =====
-- send of src/sock_wrap.c over net_tcp_send of src/esp_smoltcp_sock.c.
use esp_smoltcp.Common.{
  ℕ, zero, suc, ℤ, pos, minus_one, ◌+◌, ◌^◌, ◌<◌, ◌≤◌, ◌≡◌, ◌⊎◌, inl, inr, refl, true, some, List,
  ◌++◌, length, take, QueueApi, arith, if◌then◌else◌, ◌==◌,
}
use esp_smoltcp.Stack.Glue.{Base, State as NetState}
use esp_smoltcp.Stack.Query.{handle_for}
use esp_smoltcp.Stack.Sock.{iface_of, local_of, deadline_after, sent_result}
use esp_smoltcp.Stack.Sock.Send.{SendLaws, net_tcp_send_prefix}
use esp_smoltcp.Compat.State.{tcp, Entry, Msg, Config, put_net}
use esp_smoltcp.Compat.Env.{State}
use esp_smoltcp.Compat.Fd.{fd_get}
use esp_smoltcp.Compat.Transfer.{send}
use esp_smoltcp.Linked.{linked}

-- The time that `send` gives a call on the descriptor's entry.
abbrev pub send_wait : {Q : Type 0} → Entry Q → ℕ
send_wait r = if r.snd_timeout_ms == 0 then 5000 else r.snd_timeout_ms

-- The answer for `m` bytes sent.
abbrev pub AnswerFor : ℕ → ℤ → Type 0
AnswerFor m code = ((m ≡ 0) × (code ≡ minus_one)) ⊎ ((0 < m) × (code ≡ pos m))

sent_result-AnswerFor : (base : Base) (m : ℕ) → m < 2 ^ 31 → AnswerFor m (sent_result base m)
sent_result-AnswerFor base zero small = inl (refl, refl)
sent_result-AnswerFor base (suc k) small = inr (omega arith, ground arith)

-- On a connected TCP descriptor whose interface is enabled with a core behind it, that appends to
-- the stream what it answers to have taken, with a buffer below 2^31 bytes, a deadline that the 32
-- bits of the tick counter hold, and more fuel than bytes to send and waits left, the wrapper `send`
-- returns the number of bytes that the core took, or -1 if it took none: the stream of the
-- descriptor's socket has grown by exactly that prefix of the buffer, and fewer bytes than all are
-- sent only if the descriptor's send timeout, 5 s if it has none, is over. The descriptors are as
-- before.
pub send_streams :
    (base : Base) (config : Config) (qs : QueueApi Msg) (fuel h i : ℕ) (fd : ℤ) (r : Entry qs.Queue)
    (buf : List ℕ) (s : State (linked base fuel config qs))
    (laws : SendLaws base h (local_of r.sock) (deadline_after base (send_wait r) s.net.world))
    → fd_get config fd s.table ≡ some (i, r)
    → r.connected ≡ true
    → r.kind ≡ tcp
    → handle_for base (iface_of r.sock) s.net ≡ some h
    → length buf < 2 ^ 31
    → base.ticks s.net.world + base.ms_to_ticks (send_wait r) < 2 ^ 32
    → length buf + laws.rank s.net < fuel
    → (code : ℤ) × (m : ℕ) × (t : NetState base) × (send (linked base fuel config qs) fd buf s
        ≡ (code, put_net t s))
      × AnswerFor m code
      × (m ≤ length buf)
      × (laws.stream t.world ≡ laws.stream s.net.world ++ take m buf)
      × ((m ≡ length buf)
          ⊎ (base.ticks s.net.world + base.ms_to_ticks (send_wait r) ≤ base.ticks t.world))
unfolding send
send_streams base config qs fuel h i fd r buf s laws e up k found short held enough =
    let (m, t, ran, sent) =
      net_tcp_send_prefix base r.sock h (send_wait r) buf s.net laws fuel found enough in
    let within = sent.within in
    let done : (m ≡ length buf)
        ⊎ (base.ticks s.net.world + base.ms_to_ticks (send_wait r) ≤ base.ticks t.world) =
      elim sent.done [ inl all ↦ inl all | inr late ↦ inr (omega arith) ] in
    (
      sent_result base m,
      m,
      t,
      rw (e, send) (rw (up, send) (rw (k, send) (rw ran refl))),
      sent_result-AnswerFor base m (omega arith),
      within,
      sent.appended,
      done,
    )
