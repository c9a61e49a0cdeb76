-- ===== src/Core/Machine/Reports.antt =====
-- A poll of an interface by components/esp_smoltcp/src/esp_smoltcp.c over the glue of
-- components/esp_smoltcp_glue/src/lib.rs: what the C side then says of the interface.
use esp_smoltcp.Common.{
  ℕ, ◌≡◌, ◌≤◌, refl, sym, ◌∙◌, ap, Option, none, some, List, [], ◌∷◌, get_elem?, set, length,
  modify, QueueApi, arith, is_some, get_elem?-set_self, lt-length_of_some, length-modify,
  get_elem?-modify_self, lt-get_elem?,
}
use esp_smoltcp.Stack.State.{Stack, Iface}
use esp_smoltcp.Stack.Glue.{Base, State}
use esp_smoltcp.Stack.State.{Stack, put_world}
use esp_smoltcp.Stack.Iface.{glue_tx_cb, emit_event, add_bytes}
use esp_smoltcp.Stack.Frames.{bump}
use esp_smoltcp.Stack.Task.{push_out, report_ip, announce, poll_core}
use esp_smoltcp.Core.Outcome.{value, then_value}
use esp_smoltcp.Core.Crate.{Crate, first_ipv4}
use esp_smoltcp.Core.Device.{TxPool, Phy, trailing_zeros}
use esp_smoltcp.Core.Device.Pool.{Fits, ideal, ideal-pool, run_calls-ideal}
use esp_smoltcp.Core.Ctx.{IfaceCtx, ctx_poll, after_poll}
use esp_smoltcp.Core.Ctx.Query.{iface_has_ip}
use esp_smoltcp.Core.Ctx.Agrees.{Reached, polled, Agrees, without, with_ipv4, Reached-Agrees}
use esp_smoltcp.Core.Machine.{Board, Running, core_glue, poll_machine}

module _ (crate : Crate) (board : Board) (queue : QueueApi ℕ)
    (sleep wait : ℕ
      → Stack queue.Queue (Option (Running crate board))
      → Stack queue.Queue (Option (Running crate board))) where
  abbrev pub base : Base
  base = record { queue = queue; glue = core_glue crate board; sleep = sleep; wait_progress = wait }

  -- The contexts and the pool of a machine that was not aborted.
  abbrev pub held : Option (Running crate board) → Option (List (IfaceCtx crate) × TxPool)
  held none = none
  held (some m) = some (m.ctxs, m.pool)

  held-transmit :
      (frame : List ℕ) (w : Option (Running crate board)) → held (base.transmit frame w).1 ≡ held w
  held-transmit frame none = refl
  held-transmit frame (some m) = refl

  -- What the transmission of a frame keeps.
  record Sends (s t : State base) : Type 0 where
    same_held : held t.world ≡ held s.world
    same_length : length t.ifaces ≡ length s.ifaces

  glue_tx_cb-Sends :
      (i : ℕ) (frame : List ℕ) (s : State base) → Sends s (glue_tx_cb base i frame s).1
  unfolding glue_tx_cb
  glue_tx_cb-Sends i frame s =
      let sent : Iface queue.Queue → Iface queue.Queue = λ x. record x {
        tx_frames = bump x.tx_frames;
        tx_bytes = add_bytes x.tx_bytes (length frame);
      } in
      let failed : Iface queue.Queue → Iface queue.Queue =
        λ x. record x { tx_fails = bump x.tx_fails } in
      let world = held-transmit frame s.world in
      let a = length-modify s.ifaces i sent in
      let b = length-modify s.ifaces i failed in
      record { same_held = ground arith; same_length = ground arith }

  push_out-Sends : (fs : List (ℕ × List ℕ)) (s : State base) → Sends s (push_out base fs s)
  unfolding push_out
  push_out-Sends [] s = record { same_held = refl; same_length = refl }
  push_out-Sends ((i, frame) ∷ fs) s =
      let a = glue_tx_cb-Sends i frame s in
      let b = push_out-Sends fs (glue_tx_cb base i frame s).1 in
      record { same_held = b.same_held ∙ a.same_held; same_length = b.same_length ∙ a.same_length }

  report_ip_effect :
      (i : ℕ) (x : Iface queue.Queue) (s : State base)
      → ((report_ip base i x s).world ≡ s.world)
        × ((report_ip base i x s).ifaces
            ≡ modify s.ifaces i (λ y. record y { ip_up = base.has_ip x.handle s.world }))
  unfolding report_ip announce emit_event
  report_ip_effect i x s = ground arith

  -- With a free buffer, the poll of a context returns, and the pool is as before.
  ctx_poll_returns :
      (now k : ℕ) (pool : TxPool) (c : IfaceCtx crate)
      → Fits (crate.poll now c.iface c.sockets)
      → trailing_zeros pool ≡ some k
      → (d : IfaceCtx crate) × (sent : List (ℕ × List ℕ)) × (ctx_poll crate now pool c
          ≡ value (d, pool, sent))
  unfolding ctx_poll
  ctx_poll_returns now k pool c fit free =
      let calls = crate.poll now c.iface c.sockets in
      let phy : Phy = record { dev = c.dev; pool = pool; sent = [] } in
      let r = ideal calls phy in
      let d = after_poll crate (record c { iface = r.0.0; sockets = r.0.1; dev = r.1.dev }) in
      (
        d,
        r.1.sent,
        then_value _ (run_calls-ideal calls phy k fit free)
            (ap (λ (p : TxPool). value (d, p, r.1.sent)) (ideal-pool calls phy)),
      )

  poll_machine_returns :
      (mac : List ℕ) (h k : ℕ) (m : Running crate board) (c : IfaceCtx crate)
      → get_elem? m.ctxs h ≡ some c
      → Reached crate mac c
      → Fits (crate.poll (board.now_us m.driver) c.iface c.sockets)
      → trailing_zeros m.pool ≡ some k
      → (d : IfaceCtx crate) × Reached crate mac d
        × (held (poll_machine crate board (some h) m).1 ≡ some (set m.ctxs h d, m.pool))
  poll_machine_returns mac h k m c g r fit free =
      let now = board.now_us m.driver in
      let (d, sent, e) = ctx_poll_returns now k m.pool c fit free in
      (d, polled now m.pool c d (m.pool, sent) r e, rw (g, poll_machine) (rw e refl))

  has_ip-Agrees :
      (mac : List ℕ) (c : IfaceCtx crate)
      → Agrees crate mac c
      → c.has_ip ≡ is_some (crate.ipv4_addr c.iface)
  has_ip-Agrees mac c (without e f g) =
      f ∙ sym (ap is_some (crate.addrs_first c.iface ∙ ap first_ipv4 e))
  has_ip-Agrees mac c (with_ipv4 cidr e f g) =
      f ∙ sym (ap is_some (crate.addrs_first c.iface ∙ ap first_ipv4 e))

  has_ip-held :
      (h : ℕ) (w : Option (Running crate board)) (cs : List (IfaceCtx crate)) (pool : TxPool)
      (d : IfaceCtx crate)
      → held w ≡ some (cs, pool)
      → get_elem? cs h ≡ some d
      → base.has_ip (some h) w ≡ d.has_ip
  unfolding iface_has_ip
  has_ip-held h none cs pool d k e = absurd (ground arith)
  has_ip-held h (some m) cs pool d k e = let same : m.ctxs ≡ cs = ground arith in rw (same, e) refl

  -- An interface of the C side stands for a context that a sequence of calls reached. If there is
  -- room for two addresses, a buffer is free and what the crate writes fits into one, then a poll of
  -- the interface does not abort: the context becomes one that such a sequence reaches too, with
  -- agreeing flag, mask and addresses, all other contexts and the pool are as before, and the C
  -- side's ip_up says whether the crate's interface has an IPv4 address.
  pub poll_core-Reports :
      (mac : List ℕ) (i h k : ℕ) (x : Iface queue.Queue) (m : Running crate board)
      (c : IfaceCtx crate) (s : State base)
      → 2 ≤ crate.addr_count
      → get_elem? s.ifaces i ≡ some x
      → x.handle ≡ some h
      → s.world ≡ some m
      → get_elem? m.ctxs h ≡ some c
      → Reached crate mac c
      → Fits (crate.poll (board.now_us m.driver) c.iface c.sockets)
      → trailing_zeros m.pool ≡ some k
      → (d : IfaceCtx crate) × (y : Iface queue.Queue) × Reached crate mac d
        × Agrees crate mac d
        × (held (poll_core base i s).world ≡ some (set m.ctxs h d, m.pool))
        × (get_elem? (poll_core base i s).ifaces i ≡ some y)
        × (y.ip_up ≡ is_some (crate.ipv4_addr d.iface))
  unfolding poll_core
  poll_core-Reports mac i h k x m c s room at_i handle world at_h reached fit free =
      let polled = base.iface_poll x.handle s.world in
      let polled_eq : polled ≡ poll_machine crate board (some h) m = rw (handle, world) refl in
      let (d, reached_d, m_held) = poll_machine_returns mac h k m c at_h reached fit free in
      let u : State base = push_out base polled.0 (put_world polled.1 s) in
      let run : poll_core base i s ≡ report_ip base i x u = rw (at_i, poll_core) refl in
      let sends = push_out-Sends polled.0 (put_world polled.1 s) in
      let told = report_ip_effect i x u in
      let u_held : held u.world ≡ some (set m.ctxs h d, m.pool) =
        sends.same_held
        ∙ ap (λ (p : List (ℕ × List ℕ) × Option (Running crate board)). held p.1) polled_eq
        ∙ m_held in
      let agrees = Reached-Agrees crate mac d room reached_d in
      let at_d = get_elem?-set_self m.ctxs h d (lt-length_of_some m.ctxs h c at_h) in
      let (v, at_v) =
        lt-get_elem? u.ifaces i (rw sends.same_length (lt-length_of_some s.ifaces i x at_i)) in
      let up =
        ap (λ j. base.has_ip j u.world) handle ∙ has_ip-held h u.world _ m.pool d u_held at_d in
      (
        d,
        record v { ip_up = base.has_ip x.handle u.world },
        reached_d,
        agrees,
        ap (λ (t : State base). held t.world) run ∙ ap held told.0 ∙ u_held,
        ap (λ (t : State base). get_elem? t.ifaces i) run
            ∙ ap (λ ys. get_elem? ys i) told.1
            ∙ get_elem?-modify_self u.ifaces i _ v at_v,
        up ∙ has_ip-Agrees mac d agrees,
      )
