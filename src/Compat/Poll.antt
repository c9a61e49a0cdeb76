-- ===== src/Compat/Poll.antt =====
-- src/select_wrap.c: poll, which asks select and copies the result sets back.
pub mod Reports
use esp_smoltcp.Common.{
  ℕ, suc, ℤ, pos, negsuc, Bool, false, Option, none, some, List, [], ◌∷◌, if◌then◌else◌, ltb, ◌==◌,
  ◌+◌, ◌*◌, ◌/◌, ◌%◌,
}
use esp_smoltcp.Compat.State.{put_net}
use esp_smoltcp.Compat.Env.{Env, State}
use esp_smoltcp.Compat.Options.{Timeval}
use esp_smoltcp.Compat.Select.{FdSet, empty_set, insert, select}

-- `struct pollfd`: POLLIN and POLLOUT of `events` and of `revents`.
pub record PollFd : Type 0 where
  pub fd : ℕ
  pub wants_in : Bool
  pub wants_out : Bool
  pub has_in : Bool
  pub has_out : Bool

-- The sets and `max + 1` that the first loop builds up.
pub record Wanted : Type 0 where
  pub rd : FdSet
  pub wr : FdSet
  pub nfds : ℕ

-- The first loop, without its reset of `revents`.
unfoldable pub collect : List PollFd → Wanted → Wanted
collect [] w = w
collect (p ∷ ps) w = collect ps (record {
  rd = if p.wants_in then insert p.fd w.rd else w.rd;
  wr = if p.wants_out then insert p.fd w.wr else w.wr;
  nfds = if ltb w.nfds (suc p.fd) then suc p.fd else w.nfds;
})

abbrev pub nothing_wanted : Wanted
nothing_wanted = record { rd = empty_set; wr = empty_set; nfds = 0 }

-- The last loop, on entries whose `revents` are reset: the entries and the count.
unfoldable pub report : FdSet → FdSet → List PollFd → List PollFd × ℕ
report rd wr [] = ([], 0)
report rd wr (p ∷ ps) = (
  record p { has_in = rd p.fd; has_out = wr p.fd } ∷ (report rd wr ps).0,
  (if rd p.fd then 1 else 0) + (if wr p.fd then 1 else 0) + (report rd wr ps).1,
)

unfoldable pub clear_revents : List PollFd → List PollFd
clear_revents [] = []
clear_revents (p ∷ ps) = record p { has_in = false; has_out = false } ∷ clear_revents ps

-- `timeout_ms < 0 ? NULL : &tv`
unfoldable pub timeval_of : ℤ → Option Timeval
timeval_of (negsuc n) = none
timeval_of (pos n) = some (record { tv_sec = n / 1000; tv_usec = n % 1000 * 1000 })

module _ (env : Env) where
  -- The entries, the result and the new state; `none` if select's fuel runs out.
  unfoldable pub poll : ℕ → List PollFd → ℤ → State env → Option (List PollFd × ℕ × State env)
  poll fuel fds timeout_ms s =
      let w = collect fds nothing_wanted in
      elim (select env fuel w.nfds w.rd w.wr (timeval_of timeout_ms) s) [
        | none ↦ none
        | some a ↦
            if a.ready == 0
            then some (clear_revents fds, 0, put_net a.net s)
            else some (
              (report a.rd a.wr (clear_revents fds)).0,
              (report a.rd a.wr (clear_revents fds)).1,
              put_net a.net s,
            )
      ]
