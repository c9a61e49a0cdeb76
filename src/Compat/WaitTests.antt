-- ===== src/Compat/WaitTests.antt =====
-- Runs of the waiting calls of the shim on concrete inputs.
use esp_smoltcp.Common.{
  get_or, true, All, ℕ, pos, ◌-◌, ◌%◌, ◌^◌, ◌+◌, ◌≤◌, ◌<◌, ◌≡◌, refl, false, some, [], ◌∷◌, arith,
}
use esp_smoltcp.Compat.State.{tcp}
use esp_smoltcp.Compat.Env.{State}
use esp_smoltcp.Compat.Fd.{slot_of, fd_get, first_free, fd_alloc}
use esp_smoltcp.Compat.Fd.Alloc.{fresh_at}
use esp_smoltcp.Compat.Accept.{Accepted, accept, elapsed}
use esp_smoltcp.Compat.Accept.Handover.{FirstConnected, handed, rearmed, accept_hands_over}
use esp_smoltcp.Compat.Accept.Wait.{PatienceLaws, Ended, accept_returns}
use esp_smoltcp.Compat.Options.{Timeval}
use esp_smoltcp.Compat.Select.{
  FdSet, empty_set, insert, Scan, select, select_pass, deadline_of, select_loop, scan_fds, visit,
  visit_read, visit_write, fd_readable, any_connected, readable_queue, readable_net,
}
use esp_smoltcp.Compat.Select.Wait.{WaitLaws, Selected, select_returns, select_never_udp}
use esp_smoltcp.Compat.Poll.{PollFd, poll, collect, timeval_of, report, clear_revents}
use esp_smoltcp.Compat.Poll.Reports.{Asked, bits, poll_reports}
use esp_smoltcp.Compat.Samples.{env_sample, listener_entry, udp_entry, compat_sample}

abbrev asked : FdSet
asked = insert 55 (insert 56 empty_set)

-- 5 ms
abbrev timeval_sample : Timeval
timeval_sample = record { tv_sec = 0; tv_usec = 5000 }

-- What the calls rely on holds of the net of the examples, with a deadline at 5 ticks.
abbrev wait_laws_sample : WaitLaws env_sample 5
wait_laws_sample = record {
  rank = λ n. 5 - n;
  probe_ranks = λ sock n. omega arith;
  delay_ranks = λ n h. omega arith;
}

select_returns_example :
    (a : Scan ℕ) × (select env_sample 9 60 asked empty_set (some timeval_sample) compat_sample
      ≡ some a)
    × Selected env_sample 5 wait_laws_sample 60 asked empty_set a
unfolding deadline_of
select_returns_example =
    select_returns env_sample 60 asked empty_set timeval_sample compat_sample wait_laws_sample 9
      (ground arith) (omega arith)

selected :
    select env_sample 1 57 asked empty_set (some timeval_sample) compat_sample
    ≡ some (select_pass env_sample 57 asked empty_set compat_sample)
unfolding select select_loop scan_fds visit visit_read visit_write fd_readable any_connected fd_get
    slot_of deadline_of readable_queue readable_net
selected = refl

select_never_udp_example : (select_pass env_sample 57 asked empty_set compat_sample).rd 56 ≡ false
unfolding fd_get slot_of
select_never_udp_example =
    select_never_udp env_sample 1 57 asked empty_set (some timeval_sample) 56 2 udp_entry
      compat_sample (select_pass env_sample 57 asked empty_set compat_sample)
      (λ sock room to n. omega arith) refl refl refl selected

allocated : (fd_alloc env_sample tcp compat_sample).0 ≡ pos 57
unfolding fd_alloc first_free
allocated = refl

accept_hands_over_example :
    (idx : ℕ) × (a : Accepted (State env_sample)) × (accept env_sample 1
        (pos 55)
        (some 16)
        compat_sample
      ≡ some a)
    × (a.result ≡ pos 57)
    × (fd_get env_sample.config (pos 57) a.state.table
        ≡ some (
          3,
          handed env_sample listener_entry
              (get_or (15 ∷ 25 ∷ []) idx 0)
              (fresh_at env_sample tcp compat_sample),
        ))
    × (fd_get env_sample.config (pos 55) a.state.table
        ≡ some
            (1, rearmed env_sample (15 ∷ 25 ∷ []) idx (env_sample.tcp_open 0 0).0 listener_entry))
    × ((d : ℕ) × (d < 2) × FirstConnected env_sample (15 ∷ 25 ∷ []) 2 0 idx 0 0 d)
unfolding fd_get slot_of
accept_hands_over_example =
    accept_hands_over env_sample (pos 55) 1 1 57 0 listener_entry (15 ∷ 25 ∷ []) (some 16)
      compat_sample refl refl refl (omega arith) refl allocated

abbrev pollfd_sample : PollFd
pollfd_sample = record {
  fd = 55;
  wants_in = true;
  wants_out = false;
  has_in = false;
  has_out = true;
}

polled :
    poll env_sample 1 (pollfd_sample ∷ []) (pos 5) compat_sample
    ≡ some (record pollfd_sample { has_in = true; has_out = false } ∷ [], 1, compat_sample)
unfolding poll collect timeval_of report clear_revents select select_loop scan_fds visit visit_read
    visit_write fd_readable any_connected fd_get slot_of deadline_of readable_queue readable_net
polled = refl

poll_reports_example :
    (1 ≡ bits (record pollfd_sample { has_in = true; has_out = false } ∷ []))
    × All
        (Asked (pollfd_sample ∷ []))
        (record pollfd_sample { has_in = true; has_out = false } ∷ [])
poll_reports_example =
    poll_reports env_sample 1 1 (pollfd_sample ∷ [])
      (record pollfd_sample { has_in = true; has_out = false } ∷ []) (pos 5) compat_sample
      compat_sample polled

patience : (n : ℕ) → elapsed env_sample 0 n ≤ 60000 → 60001 - (n + 2) % 2 ^ 32 < 60001 - n % 2 ^ 32
unfolding elapsed
patience n h = omega arith

-- The net of the examples is its clock, which started at 0.
abbrev patience_sample : PatienceLaws env_sample 0
patience_sample = record { rank = λ n. 60001 - n % 2 ^ 32; delay_ranks = patience }

accept_returns_example :
    (a : Accepted (State env_sample)) × (accept env_sample 60002 (pos 55) (some 16) compat_sample
      ≡ some a)
    × Ended env_sample 0 patience_sample 1 listener_entry (some 16) compat_sample a
unfolding fd_get slot_of
accept_returns_example =
    accept_returns env_sample 60002 (pos 55) 1 listener_entry (some 16) compat_sample
      patience_sample refl refl (omega arith)
