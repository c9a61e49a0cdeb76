-- ===== src/Compat/Run/Handlers/Listens.antt =====
-- listen of src/sock_wrap.c keeps every entry of the table sound.
use esp_smoltcp.Common.{
  ℕ, zero, suc, ℤ, ◌≡◌, ◌<◌, refl, Bool, none, some, List, ◌∷◌, ◌==◌, arith, length,
  length-replicate, Bool-cases, Option-cases, inl, inr, ℤ-cases,
}
use esp_smoltcp.Compat.State.{tcp_listen, Entry, is_tcp}
use esp_smoltcp.Compat.Env.{Env, State}
use esp_smoltcp.Compat.Fd.{fd_get}
use esp_smoltcp.Compat.Socket.{
  Armed, armed, cons_armed, pool_size, arm, listening, listen_armed, listen,
}
use esp_smoltcp.Compat.Run.{AllSound}
use esp_smoltcp.Compat.Run.Handlers.{kept}

module _ (env : Env) where
  open env use {config, Queue, Net, listener_pool}

  -- `arm` fills all places of the pool.
  abbrev places : Armed Net → List ℕ
  places (armed e xs n) = xs

  places-cons_armed : (x : ℕ) (a : Armed Net) → places (cons_armed x a) ≡ x ∷ places a
  places-cons_armed x (armed e xs n) = refl

  length-arm : (k iface port : ℕ) (n : Net) → length (places (arm env k iface port n)) ≡ k
  unfolding arm
  length-arm zero iface port n = refl
  length-arm (suc k) iface port n =
      let id = (env.tcp_open iface n).0 in
      let opened = (env.tcp_open iface n).1 in
      let listened = (env.tcp_listen id port opened).1 in
      ground (
        arith,
        length-replicate {A = ℕ} k 0,
        places-cons_armed id (arm env k iface port listened),
        length-arm k iface port listened,
      )

  pool_size_positive : (backlog : ℤ) → 0 < listener_pool → 0 < pool_size env backlog
  unfolding pool_size
  pool_size_positive backlog h = elim (ℤ-cases backlog) [
    | inl (m, e) ↦ ground (arith, e)
    | inr (m, e) ↦ ground (arith, e)
  ]

  listening-AllSound :
      (i size : ℕ) (r : Entry Queue) (xs : List ℕ) (s : State env)
      → length xs ≡ size
      → 0 < size
      → AllSound env s.table
      → AllSound env (listening env i r size xs s).table
  listening-AllSound i size r xs s l h v =
      kept env
        (λ x. record x {
          pool = some xs;
          pool_len = size;
          pool_next = 0;
          port = r.local_port;
          kind = tcp_listen;
        })
        (λ x u. record { pool_there = λ e. (xs, refl, l, h); queue_there = u.queue_there }) i
        s.table v

  listen_armed-AllSound :
      (i size : ℕ) (r : Entry Queue) (a : Armed Net) (s : State env)
      → length (places a) ≡ size
      → 0 < size
      → AllSound env s.table
      → AllSound env (listen_armed env i r size a s).1.table
  unfolding listen_armed
  listen_armed-AllSound i size r (armed none xs n) s l h v = listening-AllSound i size r xs s l h v
  listen_armed-AllSound i size r (armed (some e) xs n) s l h v =
      listening-AllSound i size r xs s l h v

  pub listen-AllSound :
      (fd backlog : ℤ) (mem_ok : Bool) (s : State env)
      → 0 < listener_pool
      → AllSound env s.table
      → AllSound env (listen env fd backlog mem_ok s).1.table
  unfolding listen
  listen-AllSound fd backlog mem_ok s h v = elim (Option-cases (fd_get config fd s.table)) [
    | inl e ↦ rw (e, listen) v
    | inr ((i, r), e) ↦ elim (Bool-cases (is_tcp r.kind)) [
      | inr k ↦ rw (e, listen) (rw k v)
      | inl k ↦ elim (Bool-cases (r.local_port == 0)) [
        | inl z ↦ rw (e, listen) (rw (k, z) v)
        | inr z ↦ elim (Bool-cases mem_ok) [
          | inr m ↦ rw (e, listen) (rw (k, z) (rw m v))
          | inl m ↦
              let size = pool_size env backlog in
              rw (e, listen)
                (rw (k, z)
                  (rw m (
                    listen_armed-AllSound i size r (arm env size r.iface r.local_port s.net) s
                      (length-arm size r.iface r.local_port s.net) (pool_size_positive backlog h)
                      v)))
        ]
      ]
    ]
  ]
