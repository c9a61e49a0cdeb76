-- ===== src/Common/Fifo.antt =====
-- A queue that meets the interface: the concrete input of the examples.
use esp_smoltcp.Common.{
  ℕ, ◌≡◌, refl, Bool, true, false, Option, none, some, List, [], ◌∷◌, ◌++◌, ◌≤◌, ◌<◌, if◌then◌else◌,
  ltb, length, arith, lt→ltb, le→ltb, QueueApi,
}

pub record Fifo (A : Type 0) : Type 0 where
  pub items : List A
  pub room : ℕ

module _ {A : Type 0} where
  abbrev pub fifo_send : A → Fifo A → Bool × Fifo A
  fifo_send a q =
      if ltb (length q.items) q.room
      then (true, record q { items = q.items ++ a ∷ [] })
      else (false, q)

  abbrev pub fifo_take : List A → ℕ → Option (A × Fifo A)
  fifo_take [] n = none
  fifo_take (a ∷ r) n = some (a, record { items = r; room = n })

  pub send_room :
      (a : A) (q : Fifo A)
      → length q.items < q.room
      → ((fifo_send a q).0 ≡ true) × ((fifo_send a q).1.items ≡ q.items ++ a ∷ [])
  send_room a q h = rw (lt→ltb _ _ h) (refl, refl)

  pub send_full :
      (a : A) (q : Fifo A)
      → q.room ≤ length q.items
      → ((fifo_send a q).0 ≡ false) × ((fifo_send a q).1.items ≡ q.items)
  send_full a q h = rw (le→ltb _ _ h) (refl, refl)

  pub capacity_send : (a : A) (q : Fifo A) → (fifo_send a q).1.room ≡ q.room
  capacity_send a q = ground arith

  pub take_nil : (q : Fifo A) → q.items ≡ [] → fifo_take q.items q.room ≡ none
  take_nil q h = rw h refl

  pub take_cons :
      (q : Fifo A) (a : A) (r : List A)
      → q.items ≡ a ∷ r
      → (q' : Fifo A) × (fifo_take q.items q.room ≡ some (a, q'))
        × (q'.items ≡ r)
        × (q'.room ≡ q.room)
  take_cons q a r h = (record { items = r; room = q.room }, rw h refl, refl, refl)

abbrev pub fifo : (A : Type 0) → QueueApi A
fifo A = record {
  Queue = Fifo A;
  contents = λ q. q.items;
  capacity = λ q. q.room;
  send = fifo_send;
  receive = λ q. fifo_take q.items q.room;
  waiting = λ q. length q.items;
  send_room = send_room;
  send_full = send_full;
  capacity_send = capacity_send;
  receive_nil = take_nil;
  receive_cons = take_cons;
  waiting_length = λ q. refl;
}
