-- ===== src/Compat/Poll/Reports.antt =====
-- What poll of src/select_wrap.c writes back.
use esp_smoltcp.Common.{
  ℕ, zero, suc, ℤ, ◌+◌, ◌≡◌, refl, sym, ◌∙◌, some, List, [], ◌∷◌, true, false, Bool, ◌&&◌, ◌||◌,
  arith, inl, inr, if◌then◌else◌, Bool-cases, Option-cases, ◌==◌, All,
}
use esp_smoltcp.Compat.State.{put_net}
use esp_smoltcp.Compat.Env.{Env, State}
use esp_smoltcp.Compat.Select.{FdSet, insert, Scan, select, select_loop, select_pass, deadline_of}
use esp_smoltcp.Compat.Select.Sets.{Answer, select_pass-Answer}
use esp_smoltcp.Compat.Poll.{
  PollFd, Wanted, collect, nothing_wanted, report, clear_revents, timeval_of, poll,
}

-- How many of the two bits are set in all entries.
abbrev pub bits : List PollFd → ℕ
bits [] = 0
bits (q ∷ qs) = (if q.has_in then 1 else 0) + (if q.has_out then 1 else 0) + bits qs

-- Whether some entry asks for reading, or for writing, on a descriptor.
abbrev pub asks_in : ℕ → List PollFd → Bool
asks_in j [] = false
asks_in j (p ∷ ps) = (p.wants_in && j == p.fd) || asks_in j ps

abbrev pub asks_out : ℕ → List PollFd → Bool
asks_out j [] = false
asks_out j (p ∷ ps) = (p.wants_out && j == p.fd) || asks_out j ps

insert_asked :
    (b a : Bool) (fd j : ℕ) (s : FdSet)
    → a || (if b then insert fd s else s) j ≡ ((b && j == fd) || a) || s j
insert_asked true a fd j s = ground arith
insert_asked false a fd j s = refl

collect_rd : (j : ℕ) (ps : List PollFd) (w : Wanted) → (collect ps w).rd j ≡ asks_in j ps || w.rd j
unfolding collect
collect_rd j [] w = refl
collect_rd j (p ∷ ps) w = collect_rd j ps _ ∙ insert_asked p.wants_in (asks_in j ps) p.fd j w.rd

collect_wr : (j : ℕ) (ps : List PollFd) (w : Wanted) → (collect ps w).wr j ≡ asks_out j ps || w.wr j
unfolding collect
collect_wr j [] w = refl
collect_wr j (p ∷ ps) w = collect_wr j ps _ ∙ insert_asked p.wants_out (asks_out j ps) p.fd j w.wr

-- The events that an entry reports are asked for by some entry of the array.
abbrev pub Asked : List PollFd → PollFd → Type 0
Asked fds q =
    (q.has_in ≡ true → asks_in q.fd fds ≡ true) × (q.has_out ≡ true → asks_out q.fd fds ≡ true)

bits-report : (rd wr : FdSet) (ps : List PollFd) → bits (report rd wr ps).0 ≡ (report rd wr ps).1
unfolding report
bits-report rd wr [] = refl
bits-report rd wr (p ∷ ps) = omega (arith, bits-report rd wr ps)

bits-clear_revents : (ps : List PollFd) → bits (clear_revents ps) ≡ 0
unfolding clear_revents
bits-clear_revents [] = refl
bits-clear_revents (p ∷ ps) = omega (arith, bits-clear_revents ps)

report-Asked :
    (fds : List PollFd) (rd wr : FdSet)
    → ((j : ℕ) → rd j ≡ true → asks_in j fds ≡ true)
    → ((j : ℕ) → wr j ≡ true → asks_out j fds ≡ true)
    → (ps : List PollFd) → All (Asked fds) (report rd wr ps).0
unfolding report
report-Asked fds rd wr f g [] = tt
report-Asked fds rd wr f g (p ∷ ps) = ((f p.fd, g p.fd), report-Asked fds rd wr f g ps)

clear_revents-Asked : (fds ps : List PollFd) → All (Asked fds) (clear_revents ps)
unfolding clear_revents
clear_revents-Asked fds [] = tt
clear_revents-Asked fds (p ∷ ps) =
    ((λ h. absurd (ground arith), λ h. absurd (ground arith)), clear_revents-Asked fds ps)

module _ (env : Env) where
  open env use {delay}

  select_loop-Answer :
      (fuel nfds : ℕ) (rd_in wr_in : FdSet) (deadline : ℕ) (s : State env) (a : Scan env.Net)
      → select_loop env fuel nfds rd_in wr_in deadline s ≡ some a
      → Answer env nfds rd_in wr_in a
  unfolding select_loop
  select_loop-Answer zero nfds rd_in wr_in deadline s a e = absurd (ground arith)
  select_loop-Answer (suc f) nfds rd_in wr_in deadline s a e =
      let p = select_pass env nfds rd_in wr_in s in
      let now = select_pass-Answer env nfds rd_in wr_in s in
      let later = select_loop-Answer f nfds rd_in wr_in deadline (put_net (delay 1 p.net) s) a in
      ground (arith, now, later)

  -- If poll returns, its result is the number of event bits set in the entries that it leaves, and
  -- every event that an entry reports was asked for, on that descriptor, by some entry of the array.
  pub poll_reports :
      (fuel n : ℕ) (fds qs : List PollFd) (timeout_ms : ℤ) (s t : State env)
      → poll env fuel fds timeout_ms s ≡ some (qs, n, t)
      → (n ≡ bits qs) × All (Asked fds) qs
  unfolding poll select
  poll_reports fuel n fds qs timeout_ms s t e =
      let w = collect fds nothing_wanted in
      let tv = timeval_of timeout_ms in
      elim (Option-cases (select env fuel w.nfds w.rd w.wr tv s)) [
        | inl out ↦ absurd (ground (arith, out))
        | inr (a, ran) ↦
            let v = select_loop-Answer fuel w.nfds w.rd w.wr (deadline_of env tv s.net) s a ran in
            let rd_ok = λ (j : ℕ) (h : a.rd j ≡ true).
              let x = collect_rd j fds nothing_wanted in
              let y = v.rd_asked j h in let z : asks_in j fds ≡ true = ground arith in z in
            let wr_ok = λ (j : ℕ) (h : a.wr j ≡ true).
              let x = collect_wr j fds nothing_wanted in
              let y = v.wr_asked j h in let z : asks_out j fds ≡ true = ground arith in z in
            let cleared = clear_revents fds in
            elim (Bool-cases (a.ready == 0)) [
              | inl none_ready ↦
                  let left : qs ≡ cleared = ground (arith, ran) in
                  let none_set : n ≡ 0 = ground (arith, ran) in
                  rw (left, none_set) (sym (bits-clear_revents fds), clear_revents-Asked fds fds)
              | inr some_ready ↦
                  let left : qs ≡ (report a.rd a.wr cleared).0 = ground (arith, ran) in
                  let counted : n ≡ (report a.rd a.wr cleared).1 = ground (arith, ran) in
                  rw (left, counted)
                    (
                      sym (bits-report a.rd a.wr cleared),
                      report-Asked fds a.rd a.wr rd_ok wr_ok cleared,
                    )
            ]
      ]
