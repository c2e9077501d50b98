-- ===== src/Mach/Space/Rights.antt =====
-- No entry of the port table is left without a right.
use grafted.Base.{
  ℕ, suc, ◌+◌, ◌-◌, ◌^◌, ◌≤◌, ◌<◌, ◌≡◌, refl, true, Option, none, some, arith, nat_eq, ◌++◌, List,
  [], ◌∷◌, length, Option-cases, inl, inr,
}
use grafted.Base.Assoc.{lookup, insert, lookup-insert}
use grafted.Mach.Port.{MachMessage, Port, new_with_send_receive}
use grafted.Mach.Space.{
  PortSpace, new, port_for, allocate, has_rights, put_or_remove, deallocate, right_entry,
  right_added, store, insert_right, mod_port, mod_refs, send_msg, recv_msg, pop_front,
}
use grafted.Mach.Space.Laws.{port_at, port_at-put_or_remove}

abbrev pub IsKept : ℕ → Port → Type 0
IsKept b p = (has_rights p ≡ true) × (p.send_count ≤ b)

-- Every entry has a right, and its send count is at most `b`.
abbrev pub AllKept : ℕ → PortSpace → Type 0
AllKept b ps = (n : ℕ) (p : Port) → port_at ps n ≡ some p → IsKept b p

module _ (b : ℕ) (ps : PortSpace) (h : AllKept b ps) (name : ℕ) (port : Port) where
  insert-AllKept : IsKept b port → AllKept b (record ps { ports = insert ps.ports name port })
  insert-AllKept k n p e = ground (arith, lookup-insert ps.ports name n port, h n p)

  put_or_remove-AllKept : port.send_count ≤ b → AllKept b (put_or_remove ps name port)
  put_or_remove-AllKept k n p e = ground (arith, port_at-put_or_remove ps name n port, h n p)

port_for-IsKept : (b right : ℕ) (p : Port) → 1 ≤ b → port_for right ≡ some p → IsKept b p
unfolding port_for has_rights
port_for-IsKept b right p h e = ground arith

right_entry-IsKept : (b t : ℕ) (p : Port) → 1 ≤ b → right_entry t ≡ some p → IsKept b p
unfolding right_entry has_rights
right_entry-IsKept b t p h e = ground arith

right_added-IsKept :
    (b t : ℕ) (p q : Port)
    → b + 1 < 2 ^ 32
    → IsKept b p
    → right_added p t ≡ some q
    → IsKept (b + 1) q
unfolding right_added has_rights
right_added-IsKept b t p q h k e = ground arith

mod_port-le :
    (b right delta : ℕ) (p : Port)
    → 2 ^ 31 ≤ b
    → p.send_count ≤ b
    → (mod_port p right delta).send_count ≤ b
unfolding mod_port
mod_port-le b right delta p h k = ground arith

AllKept-mono : (b c : ℕ) (ps : PortSpace) → b ≤ c → AllKept b ps → AllKept c ps
AllKept-mono b c ps le h n p e = ground (arith, h n p e)

module _ (b : ℕ) (ps : PortSpace) (h : AllKept b ps) where
  allocate-AllKept : (right : ℕ) → 1 ≤ b → AllKept b (allocate ps right).0
  unfolding allocate
  allocate-AllKept right le n p e = elim (Option-cases (port_for right)) [
    | inl none_made ↦ ground (arith, h n p)
    | inr (q, made) ↦
        ground (
          arith,
          h n p,
          insert-AllKept b ps h ps.next_name q (port_for-IsKept b right q le made) n p,
        )
  ]

  deallocate-AllKept : (name : ℕ) → AllKept b (deallocate ps name).0
  unfolding deallocate
  deallocate-AllKept name n p e = elim (Option-cases (port_at ps name)) [
    | inl missing ↦ ground (arith, h n p)
    | inr (q, found) ↦ ground (
      arith,
      h name q found,
      put_or_remove-AllKept b ps h name (record q { send_count = q.send_count - 1 })
          (ground (arith, h name q found)) n p,
    )
  ]

  mod_refs-AllKept :
      (name right delta : ℕ) → 2 ^ 31 ≤ b → AllKept b (mod_refs ps name right delta).0
  unfolding mod_refs
  mod_refs-AllKept name right delta le n p e = elim (Option-cases (port_at ps name)) [
    | inl missing ↦ ground (arith, h n p)
    | inr (q, found) ↦ ground (
      arith,
      put_or_remove-AllKept b ps h name (mod_port q right delta)
          (mod_port-le b right delta q le (h name q found).1) n p,
    )
  ]

  send_msg-AllKept : (dest : ℕ) (m : MachMessage) → AllKept b (send_msg ps dest m).0
  unfolding send_msg has_rights
  send_msg-AllKept dest m n p e = elim (Option-cases (port_at ps dest)) [
    | inl missing ↦ ground (arith, h n p)
    | inr (q, found) ↦ ground (
      arith,
      h n p,
      insert-AllKept b ps h dest (record q { queue = q.queue ++ m ∷ [] }) (h dest q found) n p,
    )
  ]

  pop_front-AllKept :
      (name : ℕ) (q : Port) (ms : List MachMessage)
      → port_at ps name ≡ some q
      → AllKept b (pop_front ps name q ms).0
  unfolding pop_front has_rights
  pop_front-AllKept name q [] found = h
  pop_front-AllKept name q (m ∷ ms) found =
      insert-AllKept b ps h name (record q { queue = ms }) (h name q found)

  recv_msg-AllKept : (name : ℕ) → AllKept b (recv_msg ps name).0
  unfolding recv_msg
  recv_msg-AllKept name = elim (Option-cases (port_at ps name)) [
    | inl missing ↦ rw (missing, recv_msg) h
    | inr (q, found) ↦ rw (found, recv_msg) (pop_front-AllKept name q q.queue found)
  ]

  store-AllKept :
      (c name : ℕ) (made : Option Port)
      → b ≤ c
      → ((q : Port) → made ≡ some q → IsKept c q)
      → AllKept c (store ps name made).0
  store-AllKept c name none le k = AllKept-mono b c ps le h
  store-AllKept c name (some q) le k =
      insert-AllKept c ps (AllKept-mono b c ps le h) name q (k q refl)

  insert_right-AllKept :
      (name t : ℕ) → 2 ^ 31 ≤ b → b + 1 < 2 ^ 32 → AllKept (b + 1) (insert_right ps name t).0
  unfolding insert_right
  insert_right-AllKept name t le lt = elim (Option-cases (port_at ps name)) [
    | inl missing ↦
        rw (missing, insert_right)
          (store-AllKept (b + 1) name (right_entry t) (omega arith)
            λ q. right_entry-IsKept (b + 1) t q (omega arith))
    | inr (p, found) ↦
        rw (found, insert_right)
          (store-AllKept (b + 1) name (right_added p t) (omega arith)
            λ q. right_added-IsKept b t p q lt (h name p found))
  ]

-- A call of the port API, and its effect on the table.
pub data Call : Type 0 where
  allocates deallocates receives : ℕ → Call
  inserts_right : ℕ → ℕ → Call
  mods_refs : ℕ → ℕ → ℕ → Call
  sends : ℕ → MachMessage → Call

unfoldable pub step : PortSpace → Call → PortSpace
step ps (allocates right) = (allocate ps right).0
step ps (deallocates name) = (deallocate ps name).0
step ps (receives name) = (recv_msg ps name).0
step ps (inserts_right name t) = (insert_right ps name t).0
step ps (mods_refs name right delta) = (mod_refs ps name right delta).0
step ps (sends dest m) = (send_msg ps dest m).0

unfoldable pub run : PortSpace → List Call → PortSpace
run ps [] = ps
run ps (c ∷ cs) = run (step ps c) cs

step-AllKept :
    (b : ℕ) (ps : PortSpace) (c : Call)
    → AllKept b ps
    → 2 ^ 31 ≤ b
    → b + 1 < 2 ^ 32
    → AllKept (b + 1) (step ps c)
unfolding step
step-AllKept b ps (allocates right) h le lt =
    AllKept-mono b (b + 1) (allocate ps right).0 (omega arith)
      (allocate-AllKept b ps h right (omega arith))
step-AllKept b ps (deallocates name) h le lt =
    AllKept-mono b (b + 1) (deallocate ps name).0 (omega arith) (deallocate-AllKept b ps h name)
step-AllKept b ps (receives name) h le lt =
    AllKept-mono b (b + 1) (recv_msg ps name).0 (omega arith) (recv_msg-AllKept b ps h name)
step-AllKept b ps (inserts_right name t) h le lt = insert_right-AllKept b ps h name t le lt
step-AllKept b ps (mods_refs name right delta) h le lt =
    AllKept-mono b (b + 1) (mod_refs ps name right delta).0 (omega arith)
      (mod_refs-AllKept b ps h name right delta le)
step-AllKept b ps (sends dest m) h le lt =
    AllKept-mono b (b + 1) (send_msg ps dest m).0 (omega arith) (send_msg-AllKept b ps h dest m)

run-AllKept :
    (cs : List Call) (b : ℕ) (ps : PortSpace)
    → AllKept b ps
    → 2 ^ 31 ≤ b
    → b + length cs < 2 ^ 32
    → AllKept (b + length cs) (run ps cs)
unfolding run
run-AllKept [] b ps h le lt = AllKept-mono b (b + 0) ps (omega arith) h
run-AllKept (c ∷ cs) b ps h le lt =
    AllKept-mono (b + 1 + length cs) (b + suc (length cs)) (run (step ps c) cs) (omega arith) (
      run-AllKept cs (b + 1) (step ps c) (step-AllKept b ps c h le (omega arith)) (omega arith)
        (omega arith))

new-AllKept : (b : ℕ) → 1 ≤ b → AllKept b new
unfolding new lookup insert new_with_send_receive has_rights
new-AllKept b h n p e = ground arith

-- After any history of fewer than 2^31 port calls, every entry of the table holds a receive right
-- or at least one send right: no call leaves an entry behind without rights.
pub run-new-has_rights :
    (cs : List Call) (n : ℕ) (p : Port)
    → length cs < 2 ^ 31
    → port_at (run new cs) n ≡ some p
    → has_rights p ≡ true
run-new-has_rights cs n p h e =
    (run-AllKept cs (2 ^ 31) new (new-AllKept (2 ^ 31) (omega arith)) (omega arith) (omega arith) n
      p e).0
