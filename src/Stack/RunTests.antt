-- ===== src/Stack/RunTests.antt =====
-- Runs of the whole stack on concrete inputs.
use esp_smoltcp.Common.{ℕ, zero, suc, ◌+◌, ◌≤◌, ◌<◌, ◌≡◌, refl, true, false, some, [], ◌∷◌, arith}
use esp_smoltcp.Common.Fifo.{Fifo}
use esp_smoltcp.Stack.Glue.{State}
use esp_smoltcp.Stack.Frames.{net_frame_alloc, net_frame_free, frame_pool_init, fill}
use esp_smoltcp.Stack.Frames.Owned.{owned, count, rx_length}
use esp_smoltcp.Stack.Iface.{post_rx, enqueue_rx, kick_poll}
use esp_smoltcp.Stack.Round.{task_round}
use esp_smoltcp.Stack.Run.{System, Reach, here, later, allocate, post}
use esp_smoltcp.Stack.Run.Conserve.{started, frames_conserved, alloc_not_shared}
use esp_smoltcp.Stack.Run.Queues.{items_at, on_at}
use esp_smoltcp.Stack.Run.Liveness.{task_round_frees}
use esp_smoltcp.Stack.Samples.{base_sample, stack_sample, iface_sample}

-- Nothing waits on either interface, and there are two frames.
abbrev stack_idle : State base_sample
stack_idle = record stack_sample { ifaces = iface_sample 0 true [] ∷ iface_sample 1 false [] ∷ [] }

abbrev two_frames : Fifo ℕ
two_frames = record { items = []; room = 2 }

abbrev first_state : System base_sample
first_state = started base_sample 2 two_frames stack_idle

abbrev allocated : System base_sample
allocated = record { stack = (net_frame_alloc base_sample 60 first_state.stack).1; held = 0 ∷ [] }

abbrev posted_state : System base_sample
posted_state = record { stack = post_rx base_sample 0 0 allocated.stack; held = [] }

-- A driver takes a frame and posts it.
posted_reached : Reach base_sample first_state posted_state
unfolding net_frame_alloc frame_pool_init fill
posted_reached =
    later (later here (allocate 60 0 (net_frame_alloc base_sample 60 first_state.stack).1 refl))
      (post 0 0 (λ e. ground (arith, e)))

frames_conserved_example : owned base_sample 0 posted_state.stack + count 0 [] ≡ 1
frames_conserved_example =
    frames_conserved base_sample 2 0 two_frames stack_idle posted_state refl refl refl
      posted_reached

alloc_not_shared_example :
    (1 < 2)
    × (count 1 [] ≡ 0)
    × (owned base_sample 1 (net_frame_alloc base_sample 60 posted_state.stack).1 ≡ 0)
unfolding net_frame_alloc net_frame_free frame_pool_init post_rx enqueue_rx fill kick_poll
alloc_not_shared_example =
    alloc_not_shared base_sample 2 60 1 two_frames stack_idle
      (net_frame_alloc base_sample 60 posted_state.stack).1 posted_state refl refl refl
      posted_reached refl

idle_sample :
    (j : ℕ)
    → on_at base_sample j stack_idle.ifaces ≡ false
    → items_at base_sample j stack_idle.ifaces ≡ []
idle_sample zero h = refl
idle_sample (suc zero) h = refl
idle_sample (suc (suc j)) h = refl

few_sample : (j : ℕ) → 2 ≤ j → on_at base_sample j stack_idle.ifaces ≡ false
few_sample zero h = absurd (omega arith)
few_sample (suc zero) h = absurd (omega arith)
few_sample (suc (suc j)) h = refl

task_round_frees_example :
    (f : ℕ) × (u : State base_sample) × (net_frame_alloc base_sample 60
        (task_round base_sample 3 posted_state.stack).1
      ≡ (some f, u))
unfolding post_rx enqueue_rx net_frame_alloc frame_pool_init fill kick_poll
task_round_frees_example =
    let one_waits : rx_length base_sample posted_state.stack.ifaces ≡ 1 = refl in
    task_round_frees base_sample 2 60 3 two_frames stack_idle posted_state refl refl refl
      (record { idle = idle_sample; few = few_sample }) posted_reached (omega arith) (omega arith)
      (omega arith)
