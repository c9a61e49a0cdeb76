-- ===== src/Compat/Transfer/RoundTrip.antt =====
-- A datagram through the loopback: lo_deliver of src/loopback.c, then recvfrom of src/sock_wrap.c.
use esp_smoltcp.Common.{
  ℕ, zero, suc, ℤ, pos, ◌%◌, ◌+◌, ◌*◌, ◌/◌, ◌⊎◌, none, leb, ◌≤◌, ◌<◌, ◌≡◌, refl, ap, sym, ◌∙◌,
  Option, some, List, [], ◌∷◌, ◌++◌, true, arith, length, take, ltb, Bool-cases, inl, inr,
  if◌then◌else◌,
}
use esp_smoltcp.Types.{u16_mod}
use esp_smoltcp.Compat.State.{udp, Msg, Entry, put_entry}
use esp_smoltcp.Compat.Env.{Env, State}
use esp_smoltcp.Compat.Loopback.{find_target, lo_deliver, enqueue}
use esp_smoltcp.Compat.Address.{SockAddr}
use esp_smoltcp.Compat.Fd.{fd_get}
use esp_smoltcp.Compat.Fd.Alloc.{fd_get_inv}
use esp_smoltcp.Compat.Socket.Stale.{fd_get-modify}
use esp_smoltcp.Compat.Transfer.{recvfrom, recv_loopback, copy_out, source_of}

take_all : (xs : List ℕ) (n : ℕ) → length xs ≤ n → take n xs ≡ xs
take_all [] zero h = refl
take_all [] (suc n) h = refl
take_all (x ∷ xs) zero h = absurd (omega arith)
take_all (x ∷ xs) (suc n) h = ap (λ l. x ∷ l) (take_all xs n (omega arith))

copied :
    (xs : List ℕ) (room : ℕ)
    → take (if ltb (length xs) room then length xs else room) xs ≡ take room xs
copied xs room = elim (Bool-cases (ltb (length xs) room)) [
  | inl short ↦
      rw short (take_all xs (length xs) (omega arith) ∙ sym (take_all xs room (ground arith)))
  | inr long ↦ rw long refl
]

-- The number of bytes that a buffer of `room` bytes takes of a datagram.
abbrev pub fitting : ℕ → List ℕ → ℕ
fitting room buf = if ltb (length buf) room then length buf else room

-- What is stored of the sender: its address and port in network byte order, where something was
-- copied and the caller gives room for a `sockaddr_in`; nothing otherwise.
abbrev pub ToldSource : ℕ → Option ℕ → ℕ → ℕ → Option SockAddr → Type 0
ToldSource copied fromlen src_be src_port source =
    ((n : ℕ) × (fromlen ≡ some n)
      × (16 ≤ n)
      × (0 < copied)
      × (source
          ≡ some (record {
            is_inet = true;
            port_be = src_port % 256 * 256 + src_port / 256;
            addr_be = src_be;
          })))
    ⊎ ((source ≡ none)
        × ((copied ≡ 0) ⊎ ((fromlen ≡ none) ⊎ ((n : ℕ) × (fromlen ≡ some n) × (n < 16)))))

source_of-ToldSource :
    (env : Env) (copied : ℕ) (fromlen : Option ℕ) (src_be src_port : ℕ)
    → ToldSource copied fromlen src_be src_port (source_of env (pos copied) fromlen src_be src_port)
source_of-ToldSource env zero fromlen src_be src_port = inr (refl, inl refl)
source_of-ToldSource env (suc k) none src_be src_port = inr (ground arith, inr (inl refl))
source_of-ToldSource env (suc k) (some n) src_be src_port = elim (Bool-cases (leb 16 n)) [
  | inl room ↦ inl (n, refl, ground arith, omega arith, ground arith)
  | inr short ↦ inr (ground arith, inr (inr (n, refl, ground arith)))
]

module _ (env : Env) where
  open env use {config, Queue, contents, capacity, queue, send, receive, send_room, receive_cons}

  -- A datagram of at most 65535 bytes, delivered with memory for it to the port of a loopback UDP
  -- socket whose queue is empty and has room, is taken; the next recvfrom on that socket returns
  -- its first bytes, as many as the caller's buffer takes. Where that is at least one byte and the
  -- caller gives room for the sender, it stores the sender's address and port, else no sender.
  pub recvfrom-lo_deliver :
      (fd : ℤ) (i port src_be src_port room : ℕ) (r : Entry Queue) (q : Queue) (buf : List ℕ)
      (fromlen : Option ℕ) (late : Option Msg) (s : State env)
      → fd_get config fd s.table ≡ some (i, r)
      → r.kind ≡ udp
      → r.loopback ≡ true
      → r.lo_rx ≡ some q
      → contents q ≡ []
      → 0 < capacity q
      → find_target port s.slots ≡ some i
      → length buf ≤ 65535
      → let sent = lo_deliver queue port src_be src_port (some buf) true s in
        let got = recvfrom env fd room fromlen late sent.1 in
        (sent.0 ≡ pos (length buf))
        × (got.result ≡ pos (fitting room buf))
        × (got.bytes ≡ take room buf)
        × ToldSource (fitting room buf) fromlen src_be src_port got.source
  unfolding lo_deliver enqueue recvfrom recv_loopback copy_out
  recvfrom-lo_deliver fd i port src_be src_port room r q buf fromlen late s e k lo rx empty fits t
        small =
      let m : Msg = record {
        src_be = src_be;
        src_port = src_port;
        len = length buf % u16_mod;
        bytes = buf;
      } in
      let same : length buf % u16_mod ≡ length buf = omega arith in
      let (took, queued) = send_room m q (rw empty (omega arith)) in
      let (q', front, rest, room') =
        receive_cons (send m q).1 m [] (queued ∙ ap (λ l. l ++ m ∷ []) empty) in
      let put : Entry Queue → Entry Queue = λ x. record x { lo_rx = some (send m q).1 } in
      let (found, there, used) = fd_get_inv config fd s.table i r e in
      let again = fd_get-modify env fd s.table i r put e used in
      let ran : lo_deliver queue port src_be src_port (some buf) true s
          ≡ (pos (length buf), put_entry i put s) =
        ground arith in
      let got : recvfrom env fd room fromlen late (put_entry i put s)
          ≡ copy_out env i room fromlen m q' (put_entry i put s) =
        rw (again, recvfrom)
          (rw (k, recvfrom) (rw (lo, recvfrom) (rw (front, recv_loopback) refl))) in
      rw (ran, got)
        (rw same (
          refl,
          refl,
          copied buf room,
          source_of-ToldSource env (fitting room buf) fromlen src_be src_port,
        ))
