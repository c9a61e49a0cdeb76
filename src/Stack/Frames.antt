-- ===== src/Stack/Frames.antt =====
-- src/esp_smoltcp.c: the frame pool. A free frame's pointer waits in `s_frame_free_q`.
pub mod Owned
pub mod Pool
use esp_smoltcp.Common.{
  ℕ, zero, suc, negsuc, ◌+◌, ◌%◌, Bool, true, false, Option, none, some, List, [], if◌then◌else◌,
  ltb, modify,
}
use esp_smoltcp.Types.{u32_mod}
use esp_smoltcp.Stack.State.{Frame, Stack}
use esp_smoltcp.Stack.Glue.{Base, State}

-- NET_FRAME_BUF
abbrev pub net_frame_buf : ℕ
net_frame_buf = 1536

-- A `uint32_t` counter's `++`.
abbrev pub bump : ℕ → ℕ
bump n = (n + 1) % u32_mod

module _ (base : Base) where
  open base use {Queue, send, receive}

  -- The loop of `frame_pool_init`, from frame `i` with `k` rounds left.
  unfoldable pub fill : ℕ → ℕ → Queue → Queue
  fill i zero q = q
  fill i (suc k) q = fill (suc i) k (send i q).1

  -- `created` is what xQueueCreate(POOL_SZ, …) returns; the queue is used unchecked.
  unfoldable pub frame_pool_init : ℕ → Queue → State base → State base
  frame_pool_init pool_sz created s = record s { free_q = some (fill 0 pool_sz created) }

  abbrev pub alloc_failed : State base → Option ℕ × State base
  alloc_failed s = (none, record s { frame_alloc_fail = bump s.frame_alloc_fail })

  unfoldable pub net_frame_alloc : ℕ → State base → Option ℕ × State base
  net_frame_alloc len s = elim s.free_q [
    | none ↦ alloc_failed s
    | some q ↦ if ltb net_frame_buf len then alloc_failed s else elim (receive q) [
      | none ↦ alloc_failed s
      | some (f, q') ↦ (
        some f,
        record s {
          free_q = some q';
          frames = modify s.frames f (λ x. record x { len = len; hw_ts_ns = negsuc 0 });
        },
      )
    ]
  ]

  -- `f` is `none` for NULL.
  unfoldable pub net_frame_free : Option ℕ → State base → State base
  net_frame_free none s = s
  net_frame_free (some f) s = elim s.free_q [
    | none ↦ s
    | some q ↦ record s { free_q = some (send f q).1 }
  ]

  -- net_stack_frame_drops
  unfoldable pub frame_drops : State base → ℕ
  frame_drops s = s.frame_alloc_fail
