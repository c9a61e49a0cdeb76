-- ===== src/Core/Device/Pool.antt =====
-- components/esp_smoltcp_glue/src/lib.rs: the pool of transmit buffers over a poll.
use esp_smoltcp.Common.{
  ℕ, zero, suc, ◌≡◌, refl, ◌∙◌, sym, ◌≤◌, ap, true, false, none, some, List, [], ◌∷◌, length, set,
  le→ltb, Bool-cases, Option-cases, inl, inr, arith,
}
use esp_smoltcp.Core.Outcome.{value, then_value}
use esp_smoltcp.Core.Device.{
  TxPool, trailing_zeros, tx_pool_alloc, tx_pool_free, EspTxToken, Phy, receive, transmit,
  drop_token, consume, Use, writes, drops, use_token, Calls, finish, receives, transmits, run_calls,
  tx_frame,
}

free_alloc :
    (pool : TxPool) (i : ℕ) → trailing_zeros pool ≡ some i → set (set pool i false) i true ≡ pool
unfolding trailing_zeros
free_alloc [] i h = absurd (ground arith)
free_alloc (true ∷ bits) zero h = refl
free_alloc (true ∷ bits) (suc i) h = absurd (ground arith)
free_alloc (false ∷ bits) zero h = absurd (ground (arith, Option-cases (trailing_zeros bits)))
free_alloc (false ∷ bits) (suc i) h = elim (Option-cases (trailing_zeros bits)) [
  | inl e ↦ absurd (ground arith)
  | inr (j, e) ↦ ground (arith, free_alloc bits i)
]

-- What the crate writes fits into a buffer.
abbrev pub FitsUse : Use → Type 0
FitsUse (writes frame) = length frame ≤ tx_frame
FitsUse drops = Unit

abbrev pub Fits : {A : Type 0} → Calls A → Type 0
Fits (finish a) = Unit
Fits (receives empty use_of rest) =
    Fits empty × ((frame : List ℕ) → FitsUse (use_of frame) × Fits (rest frame))
Fits (transmits empty u rest) = Fits empty × FitsUse u × Fits rest

-- The same calls of a device that has a buffer whenever the crate asks.
abbrev pub sent_by : Use → ℕ → List (ℕ × List ℕ) → List (ℕ × List ℕ)
sent_by (writes frame) id sent = (id, frame) ∷ sent
sent_by drops id sent = sent

abbrev pub ideal : {A : Type 0} → Calls A → Phy → A × Phy
ideal (finish a) p = (a, p)
ideal (receives empty use_of rest) p = elim p.dev.rx_inbox [
  | none ↦ ideal empty p
  | some frame ↦ ideal (rest frame) (record p {
    dev = record p.dev { rx_inbox = none };
    sent = sent_by (use_of frame) p.dev.iface_id p.sent;
  })
]
ideal (transmits empty u rest) p = elim p.dev.link_up [
  | false ↦ ideal empty p
  | true ↦ ideal rest (record p { sent = sent_by u p.dev.iface_id p.sent })
]

-- A token used after its buffer was taken from the pool leaves the pool as it was before.
use_token-restores :
    (u : Use) (p q : Phy) (i : ℕ) (t : EspTxToken)
    → FitsUse u
    → trailing_zeros p.pool ≡ some i
    → t.pool_idx ≡ i
    → q.pool ≡ set p.pool i false
    → use_token t u q ≡ value (record q { pool = p.pool; sent = sent_by u t.iface_id q.sent })
unfolding use_token consume drop_token tx_pool_free
use_token-restores drops p q i t fit h idx e = rw idx (rw e (rw (free_alloc p.pool i h) refl))
use_token-restores (writes frame) p q i t fit h idx e =
    rw (le→ltb tx_frame (length frame) fit) (rw idx (rw e (rw (free_alloc p.pool i h) refl)))

receive_empty : (p : Phy) → p.dev.rx_inbox ≡ none → receive p ≡ (none, p)
unfolding receive
receive_empty p e = ground arith

receive_frame :
    (p : Phy) (i : ℕ) (frame : List ℕ)
    → trailing_zeros p.pool ≡ some i
    → p.dev.rx_inbox ≡ some frame
    → receive p ≡ (
      some (frame, record { iface_id = p.dev.iface_id; pool_idx = i }),
      record p { dev = record p.dev { rx_inbox = none }; pool = set p.pool i false },
    )
unfolding receive tx_pool_alloc
receive_frame p i frame h e = ground arith

transmit_down : (p : Phy) → p.dev.link_up ≡ false → transmit p ≡ (none, p)
unfolding transmit
transmit_down p e = ground arith

transmit_up :
    (p : Phy) (i : ℕ)
    → trailing_zeros p.pool ≡ some i
    → p.dev.link_up ≡ true
    → transmit p ≡ (
      some (record { iface_id = p.dev.iface_id; pool_idx = i }),
      record p { pool = set p.pool i false },
    )
unfolding transmit tx_pool_alloc
transmit_up p i h e = ground arith

module _ {A : Type 0} (empty : Calls A) where
  ideal_empty :
      (use_of : List ℕ → Use) (rest : List ℕ → Calls A) (p : Phy)
      → p.dev.rx_inbox ≡ none
      → ideal (receives empty use_of rest) p ≡ ideal empty p
  ideal_empty use_of rest p e = ground arith

  ideal_frame :
      (use_of : List ℕ → Use) (rest : List ℕ → Calls A) (p : Phy) (frame : List ℕ)
      → p.dev.rx_inbox ≡ some frame
      → ideal (receives empty use_of rest) p
        ≡ ideal (rest frame) (record p {
          dev = record p.dev { rx_inbox = none };
          sent = sent_by (use_of frame) p.dev.iface_id p.sent;
        })
  ideal_frame use_of rest p frame e = ground arith

  ideal_down :
      (u : Use) (rest : Calls A) (p : Phy)
      → p.dev.link_up ≡ false
      → ideal (transmits empty u rest) p ≡ ideal empty p
  ideal_down u rest p e = ground arith

  ideal_up :
      (u : Use) (rest : Calls A) (p : Phy)
      → p.dev.link_up ≡ true
      → ideal (transmits empty u rest) p
        ≡ ideal rest (record p { sent = sent_by u p.dev.iface_id p.sent })
  ideal_up u rest p e = ground arith

pub ideal-pool : {A : Type 0} (c : Calls A) (p : Phy) → (ideal c p).1.pool ≡ p.pool
ideal-pool (finish a) p = refl
ideal-pool {A} (receives empty use_of rest) p = elim (Option-cases p.dev.rx_inbox) [
  | inl e ↦ ap (λ (q : A × Phy). q.1.pool) (ideal_empty empty use_of rest p e) ∙ ideal-pool empty p
  | inr (frame, e) ↦
      ap (λ (q : A × Phy). q.1.pool) (ideal_frame empty use_of rest p frame e)
      ∙ ideal-pool (rest frame) _
]
ideal-pool {A} (transmits empty u rest) p = elim (Bool-cases p.dev.link_up) [
  | inl e ↦ ap (λ (q : A × Phy). q.1.pool) (ideal_up empty u rest p e) ∙ ideal-pool rest _
  | inr e ↦ ap (λ (q : A × Phy). q.1.pool) (ideal_down empty u rest p e) ∙ ideal-pool empty p
]

-- With a free buffer, the calls of one poll have the results, the frames sent and the device of a
-- device that never lacks one, and the pool is left as it was: no path loses a buffer.
pub run_calls-ideal :
    {A : Type 0} (c : Calls A) (p : Phy) (i : ℕ)
    → Fits c
    → trailing_zeros p.pool ≡ some i
    → run_calls c p ≡ value (ideal c p)
unfolding run_calls
run_calls-ideal (finish a) p i fit h = refl
run_calls-ideal (receives empty use_of rest) p i fit h = elim (Option-cases p.dev.rx_inbox) [
  | inl e ↦
      rw (receive_empty p e, run_calls)
        (rw (receive_empty p e)
          (run_calls-ideal empty p i fit.0 h ∙ ap value (sym (ideal_empty empty use_of rest p e))))
  | inr (frame, e) ↦
      rw (receive_frame p i frame h e, run_calls)
        (rw (receive_frame p i frame h e) (
          then_value _ (use_token-restores (use_of frame) p _ i _ (fit.1 frame).0 h refl refl) (
            run_calls-ideal (rest frame) _ i (fit.1 frame).1 h
            ∙ ap value (sym (ideal_frame empty use_of rest p frame e)))))
]
run_calls-ideal (transmits empty u rest) p i fit h = elim (Bool-cases p.dev.link_up) [
  | inl e ↦
      rw (transmit_up p i h e, run_calls)
        (rw (transmit_up p i h e) (
          then_value _ (use_token-restores u p _ i _ fit.1 h refl refl)
            (run_calls-ideal rest _ i fit.2 h ∙ ap value (sym (ideal_up empty u rest p e)))))
  | inr e ↦
      rw (transmit_down p e, run_calls)
        (rw (transmit_down p e)
          (run_calls-ideal empty p i fit.0 h ∙ ap value (sym (ideal_down empty u rest p e))))
]
