-- ===== src/Mach/Tests.antt =====
-- Runs of the port namespace, and the theorems about it at concrete inputs.
use grafted.Base.{ℕ, ◌<◌, ◌≡◌, ◌≢◌, refl, true, false, List, [], ◌∷◌, some, none, arith, nat_eq}
use grafted.Base.Assoc.{lookup, insert, remove}
use grafted.Mach.Port.{
  MachMsgHeader, MachMessage, new_with_receive, new_send_only, new_with_send_receive, kern_success,
  kern_no_space, mach_port_dead, mach_msg_success, mach_send_invalid_dest,
}
use grafted.Mach.Space.{
  PortSpace, ok, err, new, port_for, allocate, has_rights, deallocate, insert_right, mod_refs,
  send_msg, recv_msg, port_type, right_entry,
}
use grafted.Mach.Space.Laws.{port_at, deallocate_known}
use grafted.Mach.Space.Rights.{
  Call, allocates, deallocates, inserts_right, step, run, run-new-has_rights,
}
use grafted.Mach.Space.Names.{
  allocate_fresh, allocate_exhausted, allocate_hands_out_dead, allocate_replaces_inserted,
  allocate_distinct,
}
use grafted.Mach.Space.Queues.{
  send_msg_appends, recv_msg_takes_oldest, send_all, recv_all, recv_all-send_all,
}
use grafted.Mach.Message.{Buffer, done, fault, message_of, receive, mach_msg}
use grafted.Mach.Message.Laws.{
  send_only, rcv_only, send_and_rcv, mach_msg_roundtrip, mach_msg_receive_in_bounds,
  mach_msg_short_overrun, mach_msg_dead_dest, mach_msg_rpc,
}

program : Unit {0}
unfolding new lookup insert remove allocate deallocate insert_right mod_refs send_msg recv_msg
    port_type run step send_all recv_all mach_msg receive new_with_receive new_send_only
    new_with_send_receive
program = tt

abbrev to_port : ℕ → MachMsgHeader
to_port dest = record {
  msgh_bits = 0;
  msgh_size = 0;
  msgh_remote_port = dest;
  msgh_local_port = 0x307;
  msgh_voucher_port = 0;
  msgh_id = 7;
}

abbrev hello : MachMessage
hello = record { header = to_port 0x1000; body = 1 ∷ 2 ∷ [] }

abbrev world : MachMessage
world = record { header = to_port 0x1000; body = 3 ∷ [] }

-- One receive right was allocated.
abbrev one_port : PortSpace
one_port = run new (allocates 1 ∷ [])

one_port_name : (allocate new 1).1 ≡ ok 0x1000
unfolding program
one_port_name = refl

port_type_test :
    (port_type one_port 0x1000 ≡ (0, 0x20000))
    × (port_type one_port 0x103 ≡ (0, 0x30000))
    × (port_type one_port 5 ≡ (15, 0))
unfolding program
port_type_test = (refl, refl, refl)

mod_refs_test : port_at (mod_refs one_port 0x1000 1 0xFFFF_FFFF).0 0x1000 ≡ none
unfolding program
mod_refs_test = refl

abbrev history : List Call
history = allocates 0 ∷ inserts_right 0x1000 20 ∷ deallocates 0x1000 ∷ []

run-new-has_rights_example :
    has_rights (record { send_count = 1; has_receive = false; is_dead = false; queue = [] }) ≡ true
unfolding program
run-new-has_rights_example = run-new-has_rights history 0x1000 _ (omega arith) refl

test_deallocate_known :
    ((deallocate one_port 0x103).1 ≡ kern_success)
    × (port_at (deallocate one_port 0x103).0 0x103
        ≡ some (record { send_count = 0; has_receive = true; is_dead = false; queue = [] }))
unfolding program has_rights
test_deallocate_known = deallocate_known one_port 0x103 0x103 _ refl

test_allocate_fresh : (allocate new 1).0.next_name ≡ 0x1001
unfolding new
test_allocate_fresh = (allocate_fresh new 1 0x1000 (omega arith)).0

abbrev full : PortSpace
full = record { ports = []; next_name = 0xFFFF_FFFE }

test_allocate_exhausted :
    ((allocate full 1).1 ≡ err kern_no_space) × ((allocate full 1).0.ports ≡ [])
test_allocate_exhausted = allocate_exhausted full 1 (omega arith) (omega arith)

test_allocate_hands_out_dead :
    ((allocate full 1).1 ≡ err kern_no_space)
    × ((allocate (allocate full 1).0 1).1 ≡ ok mach_port_dead)
unfolding port_for
test_allocate_hands_out_dead = allocate_hands_out_dead full 1 1 _ refl refl

test_allocate_replaces_inserted :
    let inserted = (insert_right new 0x1000 20).0 in
    (port_at inserted 0x1000 ≡ some new_send_only)
    × ((allocate inserted 1).1 ≡ ok 0x1000)
    × (port_at (allocate inserted 1).0 0x1000 ≡ some new_with_receive)
unfolding new lookup insert right_entry port_for new_send_only new_with_receive
test_allocate_replaces_inserted =
    allocate_replaces_inserted new 20 1 _ _ (omega arith) refl refl refl

allocate_distinct_example : ◌<◌ 0x1000 0x1002
unfolding program
allocate_distinct_example = allocate_distinct new 1 0 0x1000 0x1002 history (omega arith) refl refl

test_send_msg_appends : (send_msg one_port 0x1000 hello).1 ≡ mach_msg_success
unfolding program
test_send_msg_appends = ((send_msg_appends one_port 0x1000 0x1000 hello).0 refl).0

test_recv_msg_takes_oldest : recv_msg one_port 0x1000 ≡ (one_port, none)
unfolding program
test_recv_msg_takes_oldest = (recv_msg_takes_oldest one_port 0x1000 0x1000).0 refl

recv_all-send_all_example :
    (recv_all 2 (send_all one_port 0x1000 (hello ∷ world ∷ [])) 0x1000).1 ≡ hello ∷ world ∷ []
unfolding program
recv_all-send_all_example = (recv_all-send_all one_port 0x1000 (hello ∷ world ∷ []) refl).0

abbrev outgoing : Buffer
outgoing = record { header = to_port 0x1000; space = 1 ∷ 2 ∷ 9 ∷ [] }

abbrev incoming : Buffer
incoming = record { header = to_port 0; space = 0 ∷ 0 ∷ 0 ∷ 5 ∷ [] }

mach_msg_roundtrip_example :
    (sent : PortSpace) × (received : PortSpace) × (mach_msg one_port
        (some outgoing)
        send_only
        26
        0
        0
      ≡ done sent (some outgoing) mach_msg_success)
    × (mach_msg sent (some incoming) rcv_only 0 28 0x1000
        ≡ done received
            (some (record {
              header = record (to_port 0x1000) { msgh_size = 26 };
              space = 1 ∷ 2 ∷ 0 ∷ 5 ∷ [];
            }))
            mach_msg_success)
unfolding program
mach_msg_roundtrip_example =
    mach_msg_roundtrip one_port outgoing incoming 26 28 0 refl refl (omega arith) (omega arith)
      (omega arith) (omega arith) (omega arith)

test_mach_msg_receive_in_bounds : mach_msg one_port (some incoming) rcv_only 0 28 0x1000 ≢ fault
test_mach_msg_receive_in_bounds =
    mach_msg_receive_in_bounds one_port incoming 0 28 0x1000 (omega arith) (omega arith)
      (omega arith)

abbrev tiny : Buffer
tiny = record { header = to_port 0; space = [] }

test_mach_msg_short_overrun :
    mach_msg (send_msg one_port 0x1000 hello).0 (some tiny) rcv_only 0 0 0x1000 ≡ fault
unfolding program
test_mach_msg_short_overrun =
    mach_msg_short_overrun (send_msg one_port 0x1000 hello).0 tiny 0 0 0x1000 hello [] (omega arith)
      refl (omega arith) (omega arith)

test_mach_msg_dead_dest :
    mach_msg new (some outgoing) send_and_rcv 26 28 0
    ≡ done new (some outgoing) mach_send_invalid_dest
unfolding program
test_mach_msg_dead_dest =
    mach_msg_dead_dest new outgoing send_and_rcv 26 28 0 refl refl (omega arith)

test_mach_msg_rpc :
    mach_msg one_port (some outgoing) send_and_rcv 26 28 0
    ≡ receive (send_msg one_port 0x1000 (message_of outgoing 26)).0 outgoing 28 0x307
unfolding program
test_mach_msg_rpc = mach_msg_rpc one_port outgoing 26 28 0 refl (omega arith)
