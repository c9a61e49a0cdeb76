-- ===== src/Stack/Sock/Send.antt =====
-- net_tcp_send of src/esp_smoltcp_sock.c: what it hands to the core, and that it ends.
use esp_smoltcp.Common.{
  ℕ, zero, suc, ℤ, pos, negsuc, is_positive, to_ℕ, ◌+◌, ◌-◌, ◌≤◌, ◌<◌, ◌≡◌, refl, sym, ◌∙◌, ap,
  some, List, [], ◌∷◌, ◌++◌, ltb, leb, arith, length, take, drop, length-drop, inl, inr, ◌⊎◌,
  Bool-cases, true, false, append-nil, append_assoc,
}
use esp_smoltcp.Stack.State.{put_world}
use esp_smoltcp.Stack.Glue.{Base, State}
use esp_smoltcp.Stack.Iface.{kick_poll}
use esp_smoltcp.Stack.Query.{handle_for}
use esp_smoltcp.Stack.Sock.{
  send_loop, net_tcp_send, iface_of, local_of, deadline_after, sent_result,
}

take_nil : (n : ℕ) → take {A = ℕ} n [] ≡ []
take_nil zero = refl
take_nil (suc n) = refl

take-drop-add : (xs : List ℕ) (a b : ℕ) → take a xs ++ take b (drop a xs) ≡ take (a + b) xs
take-drop-add xs zero b = ap (λ n. take n xs) (omega arith)
take-drop-add [] (suc a) b = rw (take_nil b, take_nil (suc a + b)) refl
take-drop-add (x ∷ xs) (suc a) b =
    ap (λ l. x ∷ l) (take-drop-add xs a b)
    ∙ ap (λ n. take n (x ∷ xs)) (let e : suc (a + b) ≡ suc a + b = omega arith in e)

-- What the call relies on: the core appends to the socket's stream the first bytes of what it is
-- given, as many as it answers; waiting changes no stream; and before the deadline only finitely
-- many waits are left (`rank`), which sending and waking the poll task do not change.
pub record SendLaws (base : Base) (h l deadline : ℕ) : Type 0 where
  pub stream : base.World → List ℕ
  pub rank : State base → ℕ
  pub send_appends :
      (buf : List ℕ) (s : State base)
      → let (n, v) = base.send_tcp (some h) l buf s.world in
        (stream v ≡ stream s.world ++ take (to_ℕ n) buf)
        × (to_ℕ n ≤ length buf)
        × (rank (put_world v s) ≤ rank s)
  pub kick_ranks : (s : State base) → rank (kick_poll base s) ≤ rank s
  pub wait_keeps : (s : State base) → stream (base.wait_progress 50 s).world ≡ stream s.world
  pub wait_ranks :
      (s : State base) → base.ticks s.world < deadline → rank (base.wait_progress 50 s) < rank s

pub world-kick_poll : (base : Base) (s : State base) → (kick_poll base s).world ≡ s.world
unfolding kick_poll
world-kick_poll base s = ground arith

positive_sign :
    (z : ℤ) → ((is_positive z ≡ true) → 0 < to_ℕ z) × ((is_positive z ≡ false) → to_ℕ z ≡ 0)
positive_sign (pos n) = (λ h. ground arith, λ h. ground arith)
positive_sign (negsuc n) = (λ h. absurd (ground arith), λ h. refl)

module _ (base : Base) (h l deadline : ℕ) (laws : SendLaws base h l deadline) (buf : List ℕ) where
  open base use {World, send_tcp, wait_progress, ticks}
  open laws use {stream, rank, send_appends, kick_ranks, wait_keeps, wait_ranks}

  -- With `m` bytes sent, the stream is what it was before and the first `m` bytes of the buffer;
  -- either these are all, or the deadline has come.
  pub record Sent (before : List ℕ) (m : ℕ) (t : State base) : Type 0 where
    pub within : m ≤ length buf
    pub appended : stream t.world ≡ before ++ take m buf
    pub done : (m ≡ length buf) ⊎ (deadline ≤ ticks t.world)

  -- The stream after one call of the core.
  sent_more :
      (before : List ℕ) (total : ℕ) (s : State base)
      → stream s.world ≡ before ++ take total buf
      → let (n, v) = send_tcp (some h) l (drop total buf) s.world in
        stream v ≡ before ++ take (total + to_ℕ n) buf
  sent_more before total s e =
      let n = to_ℕ (send_tcp (some h) l (drop total buf) s.world).0 in
      (send_appends (drop total buf) s).0
      ∙ ap (λ x. x ++ take n (drop total buf)) e
      ∙ append_assoc before (take total buf) (take n (drop total buf))
      ∙ ap (λ x. before ++ x) (take-drop-add buf total n)

  pub send_loop_ends :
      (f total : ℕ) (s : State base) (before : List ℕ)
      → (length buf - total) + rank s < f
      → total ≤ length buf
      → stream s.world ≡ before ++ take total buf
      → (m : ℕ) × (t : State base) × (send_loop base f h l buf deadline total s ≡ some (m, t))
        × Sent before m t
  unfolding send_loop
  send_loop_ends zero total s before fuel small inv = absurd (omega arith)
  send_loop_ends (suc f) total s before fuel small inv =
      elim (Bool-cases (ltb total (length buf))) [
        | inr full ↦ (
          total,
          s,
          rw (full, send_loop) refl,
          record { within = small; appended = inv; done = inl (ground arith) },
        )
        | inl left ↦
            let r = send_tcp (some h) l (drop total buf) s.world in
            let (added, few, ranked) = send_appends (drop total buf) s in
            let len = length-drop total buf in
            let now = sent_more before total s inv in
            elim (Bool-cases (is_positive r.0)) [
              | inl some_sent ↦
                  let u = kick_poll base (put_world r.1 s) in
                  let kept = world-kick_poll base (put_world r.1 s) in
                  let woken = kick_ranks (put_world r.1 s) in
                  let some_more = (positive_sign r.0).0 some_sent in
                  let (m, t, e, sent) =
                    send_loop_ends f (total + to_ℕ r.0) u before (omega arith) (omega arith)
                      (ap stream kept ∙ now) in
                  (m, t, rw (left, send_loop) (rw (some_sent, send_loop) e), sent)
              | inr none_sent ↦
                  let zero_sent = (positive_sign r.0).1 none_sent in
                  let same : stream r.1 ≡ before ++ take total buf =
                    now ∙ ap (λ n. before ++ take n buf) (omega arith) in
                  elim (Bool-cases (leb deadline (ticks r.1))) [
                    | inl late ↦ (
                      total,
                      put_world r.1 s,
                      rw (left, send_loop) (rw (none_sent, send_loop) (rw (late, send_loop) refl)),
                      record { within = small; appended = same; done = inr (ground arith) },
                    )
                    | inr early ↦
                        let u = kick_poll base (put_world r.1 s) in
                        let kept = world-kick_poll base (put_world r.1 s) in
                        let woken = kick_ranks (put_world r.1 s) in
                        let before_end : ticks u.world < deadline = rw kept (ground arith) in
                        let fewer = wait_ranks u before_end in
                        let (m, t, e, sent) =
                          send_loop_ends f total (wait_progress 50 u) before (omega arith) small
                            (wait_keeps u ∙ ap stream kept ∙ same) in
                        (
                          m,
                          t,
                          rw (left, send_loop)
                              (rw (none_sent, send_loop) (rw (early, send_loop) e)),
                          sent,
                        )
                  ]
            ]
      ]

-- On an enabled interface with a core behind it that appends to the stream what it answers to have
-- taken, and with more fuel than bytes to send and waits left, the call returns: the number `m` of
-- bytes that the core took, or -1 if it took none. The core's stream has grown by the first `m`
-- bytes of the buffer, in order and none twice, and fewer than all only if the deadline has come.
pub net_tcp_send_prefix :
    (base : Base) (sock h timeout_ms : ℕ) (buf : List ℕ) (s : State base)
    (laws : SendLaws base h (local_of sock) (deadline_after base timeout_ms s.world)) (fuel : ℕ)
    → handle_for base (iface_of sock) s ≡ some h
    → length buf + laws.rank s < fuel
    → (m : ℕ) × (t : State base) × (net_tcp_send base fuel sock buf timeout_ms s
        ≡ some (sent_result base m, t))
      × Sent base h
          (local_of sock)
          (deadline_after base timeout_ms s.world)
          laws
          buf
          (laws.stream s.world)
          m
          t
unfolding net_tcp_send
net_tcp_send_prefix base sock h timeout_ms buf s laws fuel found enough =
    let (m, t, e, sent) =
      send_loop_ends base h (local_of sock) (deadline_after base timeout_ms s.world) laws buf fuel 0
        s (laws.stream s.world) (omega arith) (omega arith)
        (sym (append-nil (laws.stream s.world))) in
    (m, t, rw (found, net_tcp_send) (rw (e, net_tcp_send) refl), sent)
