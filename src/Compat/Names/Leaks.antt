-- ===== src/Compat/Names/Leaks.antt =====
-- What getaddrinfo of src/netdb_wrap.c allocates, and who gives it back.
use esp_smoltcp.Common.{
  ℕ, suc, is_zero, ◌≡◌, refl, Bool, true, false, Option, none, some, ◌∷◌, arith, ◌≢◌, inl, inr,
  Bool-cases, Option-cases,
}
use esp_smoltcp.Compat.Env.{Env, State}
use esp_smoltcp.Compat.Inet.{Text}
use esp_smoltcp.Compat.Address.{SockAddr}
use esp_smoltcp.Compat.Names.{
  Eai, eai_ok, eai_again, eai_noname, port_of, or_else, dns_server_be, eai_memory, Answer,
  build_answer, freeaddrinfo, getaddrinfo, Resolver, filled_info, filled_addr, pick_iface,
}
use esp_smoltcp.Compat.Names.Blocks.{AddrInfo, find, info_block, addr_block, Heap}

-- The list at `p` has one entry, of AF_INET, and an address of AF_INET in a block of its own.
pub record Describes (h : Heap) (p : ℕ) : Type 0 where
  pub info : AddrInfo
  pub info_there : find p h ≡ some (info_block info)
  pub info_inet : info.is_inet ≡ true
  pub one_entry : info.next ≡ none
  pub q : ℕ
  pub linked : info.addr ≡ some q
  pub sin : SockAddr
  pub sin_there : find q h ≡ some (addr_block sin)
  pub sin_inet : sin.is_inet ≡ true

-- Either result 0, such a list, and freeaddrinfo on it gives back what was allocated; or an error,
-- no list, and nothing allocated.
pub data Settled (h : Heap) (a : Answer) : Type 0 where
  answered :
      a.code ≡ eai_ok
      → (p : ℕ) → a.res ≡ some p
      → Describes a.heap p
      → ((fuel : ℕ)
          → (after : Heap) × (freeaddrinfo (suc fuel) a.res a.heap ≡ some after)
            × (after.blocks ≡ h.blocks))
      → Settled h a
  refused : a.code ≢ eai_ok → a.res ≡ none → a.heap.blocks ≡ h.blocks → Settled h a

-- The two blocks of an answer, which stand before the others.
abbrev answer_heap : Option ℕ → ℕ → ℕ → Heap → Heap
answer_heap hints port addr h = record {
  fresh = suc (suc h.fresh);
  blocks =
      (suc h.fresh, addr_block (filled_addr port addr))
      ∷ (h.fresh, info_block (filled_info hints (suc h.fresh)))
      ∷ h.blocks;
}

fill_in_new :
    (hints : Option ℕ) (port addr : ℕ) (h : Heap)
    → build_answer true true hints port addr h
      ≡ some (record { code = eai_ok; res = some h.fresh; heap = answer_heap hints port addr h })
unfolding build_answer
fill_in_new hints port addr h = ground arith

described :
    (hints : Option ℕ) (port addr : ℕ) (h : Heap)
    → Describes (answer_heap hints port addr h) h.fresh
described hints port addr h = record {
  info = filled_info hints (suc h.fresh);
  info_there = ground arith;
  info_inet = refl;
  one_entry = refl;
  q = suc h.fresh;
  linked = refl;
  sin = filled_addr port addr;
  sin_there = ground arith;
  sin_inet = refl;
}

freeaddrinfo_answer :
    (fuel : ℕ) (hints : Option ℕ) (port addr : ℕ) (h : Heap)
    → freeaddrinfo (suc fuel) (some h.fresh) (answer_heap hints port addr h)
      ≡ some (record { fresh = suc (suc h.fresh); blocks = h.blocks })
unfolding freeaddrinfo
freeaddrinfo_answer fuel hints port addr h = ground arith

abbrev unanswered : Eai → Heap → Answer
unanswered c h = record { code = c; res = none; heap = h }

-- The answer of a call that the heap refuses, with the heap's next number.
abbrev no_memory : ℕ → Heap → Answer
no_memory n h = record {
  code = eai_memory;
  res = none;
  heap = record { fresh = n; blocks = h.blocks };
}

build_answer-Settled :
    (ai_given sin_given : Bool) (hints : Option ℕ) (port addr : ℕ) (h : Heap)
    → (a : Answer) × (build_answer ai_given sin_given hints port addr h ≡ some a) × Settled h a
unfolding build_answer
build_answer-Settled true true hints port addr h = (
  record { code = eai_ok; res = some h.fresh; heap = answer_heap hints port addr h },
  fill_in_new hints port addr h,
  answered refl h.fresh refl (described hints port addr h)
      (λ fuel. (_, freeaddrinfo_answer fuel hints port addr h, refl)),
)
build_answer-Settled true false hints port addr h =
    (no_memory (suc h.fresh) h, ground arith, refused (ground arith) refl refl)
build_answer-Settled false true hints port addr h =
    (no_memory (suc h.fresh) h, ground arith, refused (ground arith) refl refl)
build_answer-Settled false false hints port addr h =
    (no_memory h.fresh h, ground arith, refused (ground arith) refl refl)

module _ (env : Env) (names : Resolver env.Net) where
  -- Every call of getaddrinfo returns without a misuse of the heap. Either it answers 0 and a list
  -- of one AF_INET entry with its address, which one round of freeaddrinfo's loop gives back whole,
  -- so that the blocks allocated are those from before the call; or it answers an error, leaves `*res` alone, and the blocks
  -- allocated are those from before the call, also if the heap refuses one of the two blocks.
  pub getaddrinfo-Settled :
      (ai_given sin_given : Bool) (node service : Option Text) (hints : Option ℕ) (has_res : Bool)
      (h : Heap) (s : State env)
      → (a : Answer) × ((getaddrinfo env names ai_given sin_given node service hints has_res h s).0
          ≡ some a)
        × Settled h a
  unfolding getaddrinfo
  getaddrinfo-Settled ai_given sin_given none service hints has_res h s =
      (_, refl, refused (ground arith) refl refl)
  getaddrinfo-Settled ai_given sin_given (some name) service hints false h s =
      (_, refl, refused (ground arith) refl refl)
  getaddrinfo-Settled ai_given sin_given (some name) service hints true h s =
      elim (Option-cases (pick_iface env names s.net)) [
        | inl e ↦ (unanswered eai_again h, rw e refl, refused (ground arith) refl refl)
        | inr (p, e) ↦
            let got =
              names.resolve (some p) name (dns_server_be env names) names.dns_timeout s.net in
            elim (Bool-cases (is_zero got.0)) [
              | inl z ↦
                  let (a, b, c) =
                    build_answer-Settled ai_given sin_given hints (port_of env names service)
                      (or_else got.1 0) h in
                  (a, rw (e, z) b, c)
              | inr z ↦ (unanswered eai_noname h, rw (e, z) refl, refused (ground arith) refl refl)
            ]
      ]
