-- ===== src/Compat/NamesTests.antt =====
-- Runs of src/netdb_wrap.c and of the loopback's calls on concrete inputs.
use esp_smoltcp.Common.{
  ℕ, zero, suc, pos, ◌≡◌, ◌≢◌, refl, true, false, none, some, [], ◌∷◌, ◌==◌, if◌then◌else◌, arith,
  inl, inr, replicate,
}
use esp_smoltcp.Common.Fifo.{fifo}
use esp_smoltcp.Compat.State.{Msg}
use esp_smoltcp.Compat.Env.{State}
use esp_smoltcp.Compat.Loopback.{is_loopback_ip, lo_deliver, find_target}
use esp_smoltcp.Compat.Loopback.Mailboxes.{Mail, Event, MailStep}
use esp_smoltcp.Compat.Loopback.Refine.{Shows, box_at, deliver, deliver_event, message}
use esp_smoltcp.Compat.Loopback.Refine.Calls.{loopback_refines}
use esp_smoltcp.Compat.Inet.{Text, inet_pton, inet_ntop, print_ipv4, bytes_of}
use esp_smoltcp.Compat.Inet.Reversed.{inet_pton_reverses}
use esp_smoltcp.Compat.Names.{Resolver, Answer, getaddrinfo}
use esp_smoltcp.Compat.Names.Leaks.{Settled, getaddrinfo-Settled}
use esp_smoltcp.Compat.Names.Host.{HostEnt, gethostbyname, gethostbyname-Keeps, Keeps}
use esp_smoltcp.Compat.Samples.{env_sample, compat_sample}

-- 192.168.1.7
inet_pton_reverses_example :
    (v : ℕ) × (inet_pton true (print_ipv4 192 168 1 7) ≡ (pos 1, some v))
    × (bytes_of v ≡ 7 ∷ 1 ∷ 168 ∷ 192 ∷ [])
    × (inet_ntop true v 16 ≡ some (print_ipv4 7 1 168 192))
    × (is_loopback_ip v ≡ false)
inet_pton_reverses_example =
    inet_pton_reverses 192 168 1 7 16 (omega arith) (omega arith) (omega arith) (omega arith)
      (omega arith)

-- A resolver that knows one address for every name.
abbrev resolver_sample : Resolver ℕ
resolver_sample = record {
  handle = λ iface n. some 7;
  resolve = λ h name server ms n. (pos 0, some 16843009, n);
  atoi = λ t. pos 443;
  dns_primary = print_ipv4 1 1 1 1;
  dns_timeout = 5000;
}

abbrev name_sample : Text
name_sample = 97 ∷ 46 ∷ 98 ∷ []

-- The second block is refused.
getaddrinfo-Settled_example :
    (a : Answer) × ((getaddrinfo env_sample resolver_sample true false
        (some name_sample)
        none
        none
        true
        (record { fresh = 4; blocks = [] })
        compat_sample).0
      ≡ some a)
    × Settled (record { fresh = 4; blocks = [] }) a
getaddrinfo-Settled_example =
    getaddrinfo-Settled env_sample resolver_sample true false (some name_sample) none none true
      (record { fresh = 4; blocks = [] }) compat_sample

abbrev host_sample : HostEnt
host_sample = record { name_copy = replicate 64 0; addr_be = 0 }

gethostbyname-Keeps_example :
    let r = gethostbyname env_sample resolver_sample name_sample host_sample compat_sample in
    Keeps name_sample host_sample r.1 r.0
gethostbyname-Keeps_example =
    gethostbyname-Keeps env_sample resolver_sample name_sample host_sample compat_sample refl
      (refl, (refl, (refl, tt)))

-- Descriptor 54 owns port 7, and its box is empty.
abbrev mail_sample : Mail
mail_sample = record {
  owner = λ p. if 7 == p then some 0 else none;
  box = λ e. if 0 == e then some [] else none;
}

owner_sample : (p : ℕ) → p ≢ 0 → find_target p compat_sample.slots ≡ mail_sample.owner p
unfolding find_target
owner_sample p n = ground arith

box_sample : (e : ℕ) → box_at env_sample e compat_sample.table ≡ mail_sample.box e
box_sample zero = refl
box_sample (suc zero) = refl
box_sample (suc (suc zero)) = refl
box_sample (suc (suc (suc zero))) = refl
box_sample (suc (suc (suc (suc e)))) = ground arith

abbrev delivered : State env_sample
delivered = (lo_deliver (fifo Msg) 7 0 9 (some (1 ∷ 2 ∷ [])) true compat_sample).1

abbrev delivery : Event
delivery =
    deliver_event env_sample 7 (message env_sample 0 9 (1 ∷ 2 ∷ []))
      (lo_deliver (fifo Msg) 7 0 9 (some (1 ∷ 2 ∷ [])) true compat_sample).0

loopback_refines_example :
    (m : Mail) × MailStep mail_sample delivery m × Shows env_sample delivered m
loopback_refines_example =
    loopback_refines env_sample compat_sample delivered mail_sample delivery
      (record {
        distinct = (inr refl, (inl refl, (inl refl, (inl refl, tt))));
        owner = owner_sample;
        box = box_sample;
      })
      (deliver 7 0 9 (1 ∷ 2 ∷ []) true (omega arith))
