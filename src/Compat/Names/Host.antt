-- ===== src/Compat/Names/Host.antt =====
-- gethostbyname of src/netdb_wrap.c, and the name that it keeps in a static buffer.
use esp_smoltcp.Common.{
  ℕ, zero, suc, ◌-◌, ◌≡◌, refl, ◌∙◌, sym, ap, Bool, true, false, none, some, List, [], ◌∷◌, ◌++◌,
  All, if◌then◌else◌, ◌==◌, is_zero, arith, length, take, drop, replicate, length-append,
  length-take, length-replicate, append-nil, append_assoc, Bool-cases, Option-cases, inl, inr,
}
use esp_smoltcp.Compat.Env.{Env, State}
use esp_smoltcp.Compat.State.{put_net}
use esp_smoltcp.Compat.Inet.{Text}
use esp_smoltcp.Compat.Names.{Resolver, pick_iface, dns_server_be, or_else}

-- sizeof(name_copy)
abbrev pub name_size : ℕ
name_size = 64

-- The static buffers behind `he`.
pub record HostEnt : Type 0 where
  pub name_copy : List ℕ
  pub addr_be : ℕ

-- `strncpy(dst, src, n)`
unfoldable pub strncpy : List ℕ → Text → ℕ → List ℕ
strncpy dst src n = (take n src ++ replicate (n - length src) 0) ++ drop n dst

-- What a reader of a buffer gets: the bytes before the first 0.
abbrev pub c_string : List ℕ → Text
c_string [] = []
c_string (c ∷ cs) = if c == 0 then [] else c ∷ c_string cs

-- The first result tells that the pointer to `he` is returned, not NULL. The name is not NULL.
unfoldable pub gethostbyname :
    (env : Env) → Resolver env.Net → Text → HostEnt → State env → Bool × HostEnt × State env
unfolding pick_iface
gethostbyname env names name he s = elim (pick_iface env names s.net) [
  | none ↦ (false, he, s)
  | some p ↦
      let (r, out, n) =
        names.resolve (some p) name (dns_server_be env names) names.dns_timeout s.net in
      let addr = or_else out he.addr_be in
      if is_zero r
      then (
        true,
        record { name_copy = strncpy he.name_copy name (name_size - 1); addr_be = addr },
        put_net n s,
      )
      else (false, record he { addr_be = addr }, put_net n s)
]

-- A buffer of 64 bytes, of which the last is 0.
abbrev pub Terminated : HostEnt → Type 0
Terminated he = drop (name_size - 1) he.name_copy ≡ 0 ∷ []

abbrev pub NonZero : ℕ → Type 0
NonZero c = c == 0 ≡ false

drop-append : (p q : List ℕ) → drop (length p) (p ++ q) ≡ q
drop-append [] q = refl
drop-append (c ∷ p) q = drop-append p q

c_string-append : (p q : List ℕ) → All NonZero p → c_string (p ++ 0 ∷ q) ≡ p
c_string-append [] q h = refl
c_string-append (c ∷ p) q h = rw (h.0) (ap (λ r. c ∷ r) (c_string-append p q h.1))

take-All : (P : ℕ → Type 0) (n : ℕ) (p : List ℕ) → All P p → All P (take n p)
take-All P zero p h = tt
take-All P (suc n) [] h = tt
take-All P (suc n) (c ∷ p) h = (h.0, take-All P n p h.1)

padded : List ℕ → ℕ → List ℕ
padded src n = take n src ++ replicate (n - length src) 0

length-padded : (src : List ℕ) (n : ℕ) → length (padded src n) ≡ n
unfolding padded
length-padded src n = omega (
  arith,
  length-append (take n src) (replicate (n - length src) 0),
  length-take n src,
  length-replicate {A = ℕ} (n - length src) 0,
)

drop-strncpy : (dst src : List ℕ) (n : ℕ) → drop n (strncpy dst src n) ≡ drop n dst
unfolding strncpy padded
drop-strncpy dst src n =
    ap (λ k. drop k (strncpy dst src n)) (sym (length-padded src n))
    ∙ drop-append (padded src n) (drop n dst)

c_string-pad : (p : List ℕ) (k : ℕ) → All NonZero p → c_string ((p ++ replicate k 0) ++ 0 ∷ []) ≡ p
c_string-pad p zero h = rw (append-nil p) (c_string-append p [] h)
c_string-pad p (suc k) h =
    rw (append_assoc p (replicate (suc k) 0) (0 ∷ []))
      (c_string-append p (replicate k 0 ++ 0 ∷ []) h)

c_string-strncpy :
    (dst src : List ℕ) (n : ℕ)
    → drop n dst ≡ 0 ∷ []
    → All NonZero src
    → c_string (strncpy dst src n) ≡ take n src
unfolding strncpy
c_string-strncpy dst src n e h =
    rw e (c_string-pad (take n src) (n - length src) (take-All NonZero n src h))

-- The buffer `now` after a call with `name`, where it was `before`: 64 bytes with a 0 at the end. If
-- the call answers, they hold the first 63 bytes of the name, else the name they held.
pub record Keeps (name : Text) (before now : HostEnt) (found : Bool) : Type 0 where
  pub ends : Terminated now
  pub holds : c_string now.name_copy ≡ (if found then take 63 name else c_string before.name_copy)

module _ (env : Env) (names : Resolver env.Net) where
  -- The static buffer holds 64 bytes with a 0 at the end after every call, if it did before. A call
  -- that answers leaves the first 63 bytes of the name as a C string in it; a call that fails leaves
  -- the string as it was.
  pub gethostbyname-Keeps :
      (name : Text) (he : HostEnt) (s : State env)
      → Terminated he
      → All NonZero name
      → Keeps name he (gethostbyname env names name he s).1 (gethostbyname env names name he s).0
  unfolding gethostbyname
  gethostbyname-Keeps name he s t h = elim (Option-cases (pick_iface env names s.net)) [
    | inl e ↦ rw (e, gethostbyname) (record { ends = t; holds = refl })
    | inr (p, e) ↦
        let got = names.resolve (some p) name (dns_server_be env names) names.dns_timeout s.net in
        elim (Bool-cases (is_zero got.0)) [
          | inl z ↦
              rw (e, z, gethostbyname)
                (record {
                  ends = drop-strncpy he.name_copy name 63 ∙ t;
                  holds = c_string-strncpy he.name_copy name 63 t h;
                })
          | inr z ↦ rw (e, z, gethostbyname) (record { ends = t; holds = refl })
        ]
  ]
