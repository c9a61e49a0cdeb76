-- ===== src/Compat/Names/Blocks.antt =====
-- The heap that src/netdb_wrap.c uses: the blocks that are allocated, by their numbers.
use esp_smoltcp.Common.{ℕ, suc, Bool, false, Option, none, some, List, [], ◌∷◌, if◌then◌else◌, ◌==◌}
use esp_smoltcp.Compat.Address.{SockAddr}

infixl 5 ◌>>=◌
abbrev pub ◌>>=◌ : {A B : Type 0} → Option A → (A → Option B) → Option B
none >>= f = none
some a >>= f = f a

-- `struct addrinfo`: the members that the wrappers read or set.
pub record AddrInfo : Type 0 where
  pub is_inet : Bool
  pub socktype : ℕ
  pub addr : Option ℕ
  pub next : Option ℕ

pub data Block : Type 0 where
  info_block : AddrInfo → Block
  addr_block : SockAddr → Block

-- What `calloc` leaves in a new block.
abbrev pub zero_info : AddrInfo
zero_info = record { is_inet = false; socktype = 0; addr = none; next = none }

abbrev pub zero_addr : SockAddr
zero_addr = record { is_inet = false; port_be = 0; addr_be = 0 }

-- `fresh` is a number that no block had.
pub record Heap : Type 0 where
  pub fresh : ℕ
  pub blocks : List (ℕ × Block)

abbrev pub calloc : Bool → Block → Heap → Option ℕ × Heap
calloc given b h =
    if given
    then (some h.fresh, record { fresh = suc h.fresh; blocks = (h.fresh, b) ∷ h.blocks })
    else (none, h)

abbrev pub find_block : ℕ → List (ℕ × Block) → Option Block
find_block p [] = none
find_block p ((q, b) ∷ xs) = if q == p then some b else find_block p xs

abbrev pub find : ℕ → Heap → Option Block
find p h = find_block p h.blocks

abbrev pub remove_block : ℕ → List (ℕ × Block) → Option (List (ℕ × Block))
remove_block p [] = none
remove_block p ((q, b) ∷ xs) =
    let rest = remove_block p xs in
    if q == p then some xs else elim rest [ none ↦ none | some ys ↦ some ((q, b) ∷ ys) ]

-- `free`: `none` for a pointer to no block.
abbrev pub release : Option ℕ → Heap → Option Heap
release none h = some h
release (some p) h = elim (remove_block p h.blocks) [
  | none ↦ none
  | some xs ↦ some (record { fresh = h.fresh; blocks = xs })
]

abbrev pub store_block : ℕ → Block → List (ℕ × Block) → Option (List (ℕ × Block))
store_block p b [] = none
store_block p b ((q, c) ∷ xs) =
    let rest = store_block p b xs in
    if q == p then some ((q, b) ∷ xs) else elim rest [ none ↦ none | some ys ↦ some ((q, c) ∷ ys) ]

-- The assignments through a pointer.
abbrev pub store : ℕ → Block → Heap → Option Heap
store p b h = elim (store_block p b h.blocks) [
  | none ↦ none
  | some xs ↦ some (record { fresh = h.fresh; blocks = xs })
]
