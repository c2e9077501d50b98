-- ===== src/Mach/Space/Names.antt =====
-- The names that `allocate` hands out.
use grafted.Base.{
  ℕ, ◌+◌, ◌^◌, ◌≤◌, ◌<◌, ◌≡◌, none, some, arith, ◌==◌, nat_eq, if◌then◌else◌, List, [], ◌∷◌, length,
}
use grafted.Base.Assoc.{lookup-insert}
use grafted.Mach.Port.{Port, kern_no_space, kern_invalid_argument, mach_port_dead}
use grafted.Mach.Space.{
  PortSpace, ok, err, port_for, allocate, right_entry, insert_right, deallocate, mod_refs, recv_msg,
  send_msg,
}
use grafted.Mach.Space.Laws.{port_at}
use grafted.Mach.Space.Rights.{
  Call, allocates, deallocates, receives, inserts_right, mods_refs, sends, step, run,
}

-- Below the limit, a known right gets the next name and a new entry under it, and no other entry
-- changes; an unknown right is refused and the table stays. Either way one name is used up.
pub allocate_fresh :
    (ps : PortSpace) (right n : ℕ)
    → ps.next_name < 0xFFFF_FFFE
    → ((allocate ps right).0.next_name ≡ ps.next_name + 1)
      × ((port_for right ≡ none)
          → ((allocate ps right).1 ≡ err kern_invalid_argument)
            × ((allocate ps right).0.ports ≡ ps.ports))
      × ((p : Port)
          → port_for right ≡ some p
          → ((allocate ps right).1 ≡ ok ps.next_name)
            × (port_at (allocate ps right).0 n
                ≡ (if ps.next_name == n then some p else port_at ps n)))
unfolding allocate
allocate_fresh ps right n h = (
  ground arith,
  λ e. ground arith,
  λ p e. ground (arith, lookup-insert ps.ports ps.next_name n p),
)

-- At the limit every right is refused and the table stays.
pub allocate_exhausted :
    (ps : PortSpace) (right : ℕ)
    → 0xFFFF_FFFE ≤ ps.next_name
    → ps.next_name < 0xFFFF_FFFF
    → ((allocate ps right).1 ≡ err kern_no_space) × ((allocate ps right).0.ports ≡ ps.ports)
unfolding allocate
allocate_exhausted ps right h k = ground arith

-- The refusal does not last: the counter still advances, so the call after the first refusal wraps
-- and hands out the name 0xFFFFFFFF, which is MACH_PORT_DEAD.
pub allocate_hands_out_dead :
    (ps : PortSpace) (first right : ℕ) (p : Port)
    → ps.next_name ≡ 0xFFFF_FFFE
    → port_for right ≡ some p
    → ((allocate ps first).1 ≡ err kern_no_space)
      × ((allocate (allocate ps first).0 right).1 ≡ ok mach_port_dead)
unfolding allocate
allocate_hands_out_dead ps first right p h e = ground arith

-- `insert_right` accepts the name that `allocate` gives out next: the entry that it made is then
-- replaced, with its rights and its queue.
pub allocate_replaces_inserted :
    (ps : PortSpace) (t right : ℕ) (q p : Port)
    → ps.next_name < 0xFFFF_FFFE
    → port_at ps ps.next_name ≡ none
    → right_entry t ≡ some q
    → port_for right ≡ some p
    → let inserted = (insert_right ps ps.next_name t).0 in
      let allocated = allocate inserted right in
      (port_at inserted ps.next_name ≡ some q)
      × (allocated.1 ≡ ok ps.next_name)
      × (port_at allocated.0 ps.next_name ≡ some p)
unfolding allocate insert_right
allocate_replaces_inserted ps t right q p h missing e f =
    let m = (insert_right ps ps.next_name t).0 in
    ground (
      arith,
      lookup-insert ps.ports ps.next_name ps.next_name q,
      lookup-insert m.ports ps.next_name ps.next_name p,
    )

-- No call moves the counter back or by more than one, short of the wrap.
step-next_name :
    (ps : PortSpace) (c : Call)
    → ps.next_name + 1 < 2 ^ 32
    → (ps.next_name ≤ (step ps c).next_name) × ((step ps c).next_name ≤ ps.next_name + 1)
unfolding step allocate deallocate recv_msg insert_right mod_refs send_msg
step-next_name ps (allocates right) h = ground arith
step-next_name ps (deallocates name) h = ground arith
step-next_name ps (receives name) h = ground arith
step-next_name ps (inserts_right name t) h = ground arith
step-next_name ps (mods_refs name right delta) h = ground arith
step-next_name ps (sends dest m) h = ground arith

run-next_name :
    (cs : List Call) (ps : PortSpace)
    → ps.next_name + length cs < 2 ^ 32
    → ps.next_name ≤ (run ps cs).next_name
unfolding run
run-next_name [] ps h = omega arith
run-next_name (c ∷ cs) ps h = omega (
  arith,
  step-next_name ps c (omega arith),
  run-next_name cs (step ps c) (omega (arith, step-next_name ps c (omega arith))),
)

ok-injective : {a b : ℕ} → ok a ≡ ok b → a ≡ b
ok-injective e = cc

allocate_name : (ps : PortSpace) (right a : ℕ) → (allocate ps right).1 ≡ ok a → a ≡ ps.next_name
unfolding allocate
allocate_name ps right a e = ground arith

-- Two names that `allocate` hands out are different, whatever calls come between, as long as the
-- counter cannot wrap in so many calls.
pub allocate_distinct :
    (ps : PortSpace) (first second a b : ℕ) (cs : List Call)
    → ps.next_name + 1 + length cs < 2 ^ 32
    → (allocate ps first).1 ≡ ok a
    → (allocate (run (allocate ps first).0 cs) second).1 ≡ ok b
    → a < b
unfolding allocate
allocate_distinct ps first second a b cs h e f = ground (
  arith,
  allocate_name ps first a,
  allocate_name (run (allocate ps first).0 cs) second b,
  run-next_name cs (allocate ps first).0,
)
