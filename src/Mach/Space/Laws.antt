-- ===== src/Mach/Space/Laws.antt =====
-- What the methods of `PortSpace` do to the table, entry by entry.
use grafted.Base.{ℕ, ◌-◌, ◌≡◌, Option, none, some, arith, ◌==◌, nat_eq, if◌then◌else◌}
use grafted.Base.Assoc.{lookup, lookup-insert, lookup-remove}
use grafted.Mach.Port.{Port, kern_success}
use grafted.Mach.Space.{PortSpace, has_rights, put_or_remove, deallocate}

-- The port under a name.
abbrev pub port_at : PortSpace → ℕ → Option Port
port_at ps n = lookup ps.ports n

abbrev pub if_rights : Port → Option Port
if_rights port = if has_rights port then some port else none

pub port_at-put_or_remove :
    (ps : PortSpace) (name n : ℕ) (port : Port)
    → port_at (put_or_remove ps name port) n ≡ (if name == n then if_rights port else port_at ps n)
unfolding put_or_remove
port_at-put_or_remove ps name n port =
    ground (arith, lookup-insert ps.ports name n port, lookup-remove ps.ports name n)

-- On a known name, `deallocate` gives up one send right, and drops the entry if no right is left;
-- the other entries stay.
pub deallocate_known :
    (ps : PortSpace) (name n : ℕ) (port : Port)
    → port_at ps name ≡ some port
    → ((deallocate ps name).1 ≡ kern_success)
      × (port_at (deallocate ps name).0 n ≡ (
          if name == n
          then if_rights (record port { send_count = port.send_count - 1 })
          else port_at ps n))
unfolding deallocate
deallocate_known ps name n port h =
    ground
      (arith, port_at-put_or_remove ps name n (record port { send_count = port.send_count - 1 }))
