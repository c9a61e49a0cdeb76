-- ===== src/Compat/Loopback/Mailboxes.antt =====
-- What src/loopback.c promises, without slots and queues: a port has at most one owner, and an
-- owner's box holds the datagrams sent to it, oldest first.
use esp_smoltcp.Common.{
  ℕ, ◌≡◌, ◌≢◌, Option, none, some, List, [], ◌∷◌, ◌++◌, if◌then◌else◌, ◌==◌, ◌&&◌,
}
use esp_smoltcp.Compat.State.{Msg}

-- The owner of a port and the box of an owner, where there is one.
pub record Mail : Type 0 where
  pub owner : ℕ → Option ℕ
  pub box : ℕ → Option (List Msg)

abbrev pub claim : ℕ → ℕ → Mail → Mail
claim p e m = record { owner = λ j. if p == j then some e else m.owner j; box = m.box }

abbrev pub disclaim : ℕ → ℕ → Mail → Mail
disclaim p e m = record {
  owner =
      λ j. elim (m.owner j) [ none ↦ none | some t ↦ if p == j && t == e then none else some t ];
  box = m.box;
}

abbrev pub put_box : ℕ → Option (List Msg) → Mail → Mail
put_box e b m = record { owner = m.owner; box = λ j. if e == j then b else m.box j }

abbrev pub opened : Option (List Msg) → Option (List Msg)
opened none = some []
opened (some ms) = some ms

abbrev pub emptied : Option (List Msg) → Option (List Msg)
emptied none = none
emptied (some ms) = some []

-- What a call on the loopback reports.
pub data Event : Type 0 where
  -- A port is registered for an owner, or the registration fails.
  registered : ℕ → ℕ → Event
  unregistered : ℕ → Event
  given_up : ℕ → ℕ → Event
  -- A datagram to a port is accepted, or refused.
  accepted : ℕ → Msg → Event
  refused : Event
  -- An owner is handed a datagram, or there is none.
  handed : ℕ → Msg → Event
  nothing_waits : ℕ → Event
  -- An owner is made, or closed.
  made closed : ℕ → Event

-- What becomes of the mail with each report.
pub data MailStep : Mail → Event → Mail → Type 0 where
  -- The port goes to the new owner, who gets a box if it has none.
  claims :
      {m : Mail} (p e : ℕ)
      → p ≢ 0
      → MailStep m (registered p e) (put_box e (opened (m.box e)) (claim p e m))
  -- Without a port, the owner may have got a box.
  opens : {m : Mail} (e : ℕ) → MailStep m (unregistered e) (put_box e (opened (m.box e)) m)
  not_bound : {m : Mail} (e : ℕ) → MailStep m (unregistered e) m
  -- The port is free if the owner had it, and the owner's box is emptied.
  disclaims :
      {m : Mail} (p e : ℕ)
      → MailStep m (given_up p e) (put_box e (emptied (m.box e)) (disclaim p e m))
  -- The datagram goes to the end of the box of the port's owner.
  posts :
      {m : Mail} (p e : ℕ) (a : Msg) (ms : List Msg)
      → m.owner p ≡ some e
      → m.box e ≡ some ms
      → MailStep m (accepted p a) (put_box e (some (ms ++ a ∷ [])) m)
  loses : {m : Mail} → MailStep m refused m
  -- The oldest datagram leaves the box.
  takes :
      {m : Mail} (e : ℕ) (a : Msg) (ms : List Msg)
      → m.box e ≡ some (a ∷ ms)
      → MailStep m (handed e a) (put_box e (some ms) m)
  waits : {m : Mail} (e : ℕ) → m.box e ≡ some [] → MailStep m (nothing_waits e) m
  -- The box of a new owner is gone.
  makes : {m : Mail} (e : ℕ) → MailStep m (made e) (put_box e none m)
  -- The box of a closed owner is gone, and one of its ports, if it is on the loopback.
  closes : {m : Mail} (p e : ℕ) → MailStep m (closed e) (put_box e none (disclaim p e m))
  leaves : {m : Mail} (e : ℕ) → MailStep m (closed e) m
