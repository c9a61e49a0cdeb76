-- ===== src/Core/Device.antt =====
-- components/esp_smoltcp_glue/src/lib.rs: the device that the smoltcp crate polls, over a pool of
-- transmit buffers and an inbox for one frame.
pub mod Pool
use esp_smoltcp.Common.{
  ℕ, suc, Bool, true, false, Option, none, some, List, [], ◌∷◌, if◌then◌else◌, ltb, length, set,
  replicate,
}
use esp_smoltcp.Core.Outcome.{Outcome, value, panic, ◌>>=◌}

-- TX_FRAME and TX_POOL_N
abbrev pub tx_frame : ℕ
tx_frame = 1536

abbrev pub tx_pool_n : ℕ
tx_pool_n = 16

-- `TxPool.free_mask`, lowest bit first: bit i tells that buffer i is free.
abbrev pub TxPool : Type 0
TxPool = List Bool

abbrev pub all_free : TxPool
all_free = replicate tx_pool_n true

-- `trailing_zeros`, `none` for the mask 0.
unfoldable pub trailing_zeros : TxPool → Option ℕ
trailing_zeros [] = none
trailing_zeros (true ∷ bits) = some 0
trailing_zeros (false ∷ bits) = elim (trailing_zeros bits) [ none ↦ none | some i ↦ some (suc i) ]

unfoldable pub tx_pool_alloc : TxPool → Option (ℕ × TxPool)
tx_pool_alloc pool = elim (trailing_zeros pool) [
  | none ↦ none
  | some i ↦ some (i, set pool i false)
]

unfoldable pub tx_pool_free : ℕ → TxPool → TxPool
tx_pool_free idx pool = set pool idx true

pub record EspDevice : Type 0 where
  pub iface_id : ℕ
  pub rx_inbox : Option (List ℕ)
  pub link_up : Bool

abbrev pub new_device : ℕ → EspDevice
new_device id = record { iface_id = id; rx_inbox = none; link_up = false }

unfoldable pub push_rx : List ℕ → EspDevice → EspDevice
push_rx frame dev = elim dev.rx_inbox [ none ↦ record dev { rx_inbox = some frame } | some _ ↦ dev ]

pub record EspTxToken : Type 0 where
  pub iface_id : ℕ
  pub pool_idx : ℕ

-- The device, the pool and what smoltcp_glue_tx_cb was called with, the last call first.
pub record Phy : Type 0 where
  pub dev : EspDevice
  pub pool : TxPool
  pub sent : List (ℕ × List ℕ)

abbrev new_token : ℕ → ℕ → EspTxToken
new_token id idx = record { iface_id = id; pool_idx = idx }

-- `Device::receive`: the frame and the token, and the device after it.
unfoldable pub receive : Phy → Option (List ℕ × EspTxToken) × Phy
receive p = elim p.dev.rx_inbox [
  | none ↦ (none, p)
  | some frame ↦
      let dev = record p.dev { rx_inbox = none } in
      elim (tx_pool_alloc p.pool) [
        | none ↦ (none, record p { dev = dev })
        | some (idx, pool) ↦
            (some (frame, new_token p.dev.iface_id idx), record p { dev = dev; pool = pool })
      ]
]

-- `Device::transmit`
unfoldable pub transmit : Phy → Option EspTxToken × Phy
transmit p =
    if p.dev.link_up
    then elim (tx_pool_alloc p.pool) [
      | none ↦ (none, p)
      | some (idx, pool) ↦ (some (new_token p.dev.iface_id idx), record p { pool = pool })
    ]
    else (none, p)

-- `Drop for EspTxToken`
unfoldable pub drop_token : EspTxToken → Phy → Phy
drop_token t p = record p { pool = tx_pool_free t.pool_idx p.pool }

-- `TxToken::consume` with what the crate writes into the `len` bytes: it panics where the buffer is
-- shorter. The token is dropped at its end.
unfoldable pub consume : EspTxToken → List ℕ → Phy → Outcome Phy
consume t frame p =
    if ltb tx_frame (length frame)
    then panic
    else value (drop_token t (record p { sent = (t.iface_id, frame) ∷ p.sent }))

-- What the crate does with a token: it writes a frame, or drops the token.
pub data Use : Type 0 where
  writes : List ℕ → Use
  drops : Use

unfoldable pub use_token : EspTxToken → Use → Phy → Outcome Phy
use_token t (writes frame) p = consume t frame p
use_token t drops p = value (drop_token t p)

-- The calls that the crate makes of a device in one poll. A token borrows the device: it is used
-- before the next call.
pub data Calls (A : Type 0) : Type 0 where
  finish : A → Calls A
  receives : Calls A → (List ℕ → Use) → (List ℕ → Calls A) → Calls A
  transmits : Calls A → Use → Calls A → Calls A

unfoldable pub run_calls : {A : Type 0} → Calls A → Phy → Outcome (A × Phy)
run_calls (finish a) p = value (a, p)
run_calls (receives empty use_of rest) p =
    let (got, q) = receive p in
    elim got [
      | none ↦ run_calls empty q
      | some (frame, t) ↦ do r ← use_token t (use_of frame) q; run_calls (rest frame) r
    ]
run_calls (transmits empty u rest) p =
    let (got, q) = transmit p in
    elim got [ none ↦ run_calls empty q | some t ↦ do r ← use_token t u q; run_calls rest r ]
