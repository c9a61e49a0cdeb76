-- ===== src/Compat/Select/Sets.antt =====
-- What one scan of src/select_wrap.c answers.
use esp_smoltcp.Common.{
  ℕ, zero, suc, pos, Bool, true, false, ◌&&◌, List, if◌then◌else◌, ◌==◌, ◌+◌, ◌≤◌, ◌≡◌, inl, inr,
  refl, arith, Option-cases, Bool-cases, ==_eq,
}
use esp_smoltcp.Compat.State.{Entry}
use esp_smoltcp.Compat.Env.{Env, State}
use esp_smoltcp.Compat.Fd.{fd_get}
use esp_smoltcp.Compat.Select.{
  FdSet, insert, Scan, visit, visit_read, visit_write, scan_fds, fd_readable, fd_writable,
  select_pass, start_scan,
}

-- How many descriptors below `n` are in a set.
abbrev pub members : ℕ → FdSet → ℕ
members zero s = 0
members (suc n) s = (if s n then 1 else 0) + members n s

members-insert_other : (n fd : ℕ) (s : FdSet) → n ≤ fd → members n (insert fd s) ≡ members n s
members-insert_other zero fd s h = refl
members-insert_other (suc n) fd s h = ground (arith, members-insert_other n fd s)

module _ (env : Env) where
  open env use {config, Queue, Net, udp_recvfrom}

  -- The state of the scan before descriptor `fd`: nothing from `fd` on is in the result sets, all
  -- in them was asked for, and the count is the number of members.
  record Scanned (rd_in wr_in : FdSet) (fd : ℕ) (a : Scan Net) : Type 0 where
    rd_below : (j : ℕ) → fd ≤ j → a.rd j ≡ false
    wr_below : (j : ℕ) → fd ≤ j → a.wr j ≡ false
    rd_asked : (j : ℕ) → a.rd j ≡ true → rd_in j ≡ true
    wr_asked : (j : ℕ) → a.wr j ≡ true → wr_in j ≡ true
    counted : a.ready ≡ members fd a.rd + members fd a.wr

  skip-Scanned :
      (rd_in wr_in : FdSet) (fd : ℕ) (a : Scan Net)
      → Scanned rd_in wr_in fd a
      → Scanned rd_in wr_in (suc fd) a
  skip-Scanned rd_in wr_in fd a v = record {
    rd_below = λ j h. v.rd_below j (omega arith);
    wr_below = λ j h. v.wr_below j (omega arith);
    rd_asked = v.rd_asked;
    wr_asked = v.wr_asked;
    counted = ground (arith, v.counted, v.rd_below fd (omega arith), v.wr_below fd (omega arith));
  }

  -- A set after descriptor `fd` was put in, or not.
  abbrev grown : Bool → ℕ → FdSet → FdSet
  grown b fd s = if b then insert fd s else s

  grown_below :
      (b : Bool) (fd : ℕ) (s : FdSet) (j : ℕ) → suc fd ≤ j → s j ≡ false → grown b fd s j ≡ false
  grown_below true fd s j h e = ground arith
  grown_below false fd s j h e = e

  grown_asked :
      (b : Bool) (fd : ℕ) (s asked : FdSet) (j : ℕ)
      → (b ≡ true → asked fd ≡ true)
      → (s j ≡ true → asked j ≡ true)
      → grown b fd s j ≡ true
      → asked j ≡ true
  grown_asked true fd s asked j h k e = elim (Bool-cases (j == fd)) [
    | inl z ↦ rw (==_eq j fd z) (h refl)
    | inr z ↦ k (ground arith)
  ]
  grown_asked false fd s asked j h k e = k e

  members-grown :
      (b : Bool) (fd : ℕ) (s : FdSet)
      → s fd ≡ false
      → members (suc fd) (grown b fd s) ≡ (if b then 1 else 0) + members fd s
  members-grown true fd s e = ground (arith, members-insert_other fd fd s (omega arith))
  members-grown false fd s e = ground arith

  visited :
      (rd_in wr_in : FdSet) (fd : ℕ) (r : Entry Queue) (a : Scan Net)
      → let b = visit_read env rd_in fd r a in
        let reads = rd_in fd && (fd_readable env r a.net).0 in
        let writes = wr_in fd && fd_writable env r b.net in
        let c = visit env rd_in wr_in fd r a in
        (c.rd ≡ grown reads fd a.rd)
        × (c.wr ≡ grown writes fd a.wr)
        × (c.ready ≡ a.ready + (if reads then 1 else 0) + (if writes then 1 else 0))
  unfolding visit visit_read visit_write
  visited rd_in wr_in fd r a = ground arith

  visit-Scanned :
      (rd_in wr_in : FdSet) (fd : ℕ) (r : Entry Queue) (a : Scan Net)
      → Scanned rd_in wr_in fd a
      → Scanned rd_in wr_in (suc fd) (visit env rd_in wr_in fd r a)
  visit-Scanned rd_in wr_in fd r a v =
      let b = visit_read env rd_in fd r a in
      let reads = rd_in fd && (fd_readable env r a.net).0 in
      let writes = wr_in fd && fd_writable env r b.net in
      let (rd, wr, n) = visited rd_in wr_in fd r a in
      record {
        rd_below = λ j h. rw rd (grown_below reads fd a.rd j h (v.rd_below j (omega arith)));
        wr_below = λ j h. rw wr (grown_below writes fd a.wr j h (v.wr_below j (omega arith)));
        rd_asked = λ j e.
            grown_asked reads fd a.rd rd_in j (λ t. ground arith) (v.rd_asked j) (rw rd at e);
        wr_asked = λ j e.
            grown_asked writes fd a.wr wr_in j (λ t. ground arith) (v.wr_asked j) (rw wr at e);
        counted =
            rw (rd, wr)
              (omega (
                arith,
                n,
                v.counted,
                members-grown reads fd a.rd (v.rd_below fd (omega arith)),
                members-grown writes fd a.wr (v.wr_below fd (omega arith)),
              ));
      }

  scan_fds-Scanned :
      (table : List (Entry Queue)) (rd_in wr_in : FdSet) (fd k : ℕ) (a : Scan Net)
      → Scanned rd_in wr_in fd a
      → Scanned rd_in wr_in (fd + k) (scan_fds env table rd_in wr_in fd k a)
  unfolding scan_fds
  scan_fds-Scanned table rd_in wr_in fd zero a v = rw (let e : fd + 0 ≡ fd = omega arith in e) v
  scan_fds-Scanned table rd_in wr_in fd (suc k) a v =
      rw (let e : fd + suc k ≡ suc fd + k = omega arith in e) (
        scan_fds-Scanned table rd_in wr_in (suc fd) k _
          (elim (Option-cases (fd_get config (pos fd) table)) [
            | inl e ↦ rw e (skip-Scanned rd_in wr_in fd a v)
            | inr ((i, r), e) ↦ rw e (visit-Scanned rd_in wr_in fd r a v)
          ]))

  -- What select answers about the sets that it was given.
  pub record Answer (nfds : ℕ) (rd_in wr_in : FdSet) (a : Scan Net) : Type 0 where
    pub rd_below : (j : ℕ) → nfds ≤ j → a.rd j ≡ false
    pub wr_below : (j : ℕ) → nfds ≤ j → a.wr j ≡ false
    pub rd_asked : (j : ℕ) → a.rd j ≡ true → rd_in j ≡ true
    pub wr_asked : (j : ℕ) → a.wr j ≡ true → wr_in j ≡ true
    pub counted : a.ready ≡ members nfds a.rd + members nfds a.wr

  start-Scanned : (rd_in wr_in : FdSet) (n : Net) → Scanned rd_in wr_in 0 (start_scan env n)
  start-Scanned rd_in wr_in n = record {
    rd_below = λ j h. refl;
    wr_below = λ j h. refl;
    rd_asked = λ j e. absurd (ground arith);
    wr_asked = λ j e. absurd (ground arith);
    counted = omega arith;
  }

  -- One scan of the descriptors answers with sets that hold only descriptors below `nfds` that were
  -- asked for, and with the number of members of the two sets as its count.
  pub select_pass-Answer :
      (nfds : ℕ) (rd_in wr_in : FdSet) (s : State env)
      → Answer nfds rd_in wr_in (select_pass env nfds rd_in wr_in s)
  select_pass-Answer nfds rd_in wr_in s =
      let z : 0 + nfds ≡ nfds = omega arith in
      let v = rw z at (
        scan_fds-Scanned s.table rd_in wr_in 0 nfds (start_scan env s.net)
          (start-Scanned rd_in wr_in s.net)) in
      record {
        rd_below = v.rd_below;
        wr_below = v.wr_below;
        rd_asked = v.rd_asked;
        wr_asked = v.wr_asked;
        counted = v.counted;
      }
