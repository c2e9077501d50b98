-- ===== src/Mach/Space.antt =====
-- crates/grafted-dyld/src/mach_ipc.rs: `PortSpace` and its methods. A method returns the next
-- space with its result. Arithmetic on `u32` and `i32` wraps, as in a release build.
pub mod Laws
pub mod Rights
pub mod Names
pub mod Queues
use grafted.Base.{
  ℕ, ◌+◌, ◌-◌, ◌^◌, Bool, true, false, not, ◌&&◌, ◌||◌, List, [], ◌∷◌, ◌++◌, Option, none, some,
  ◌==◌, nat_eq, ltb, leb, if◌then◌else◌, u32,
}
use grafted.Base.Assoc.{Map, lookup, insert, remove}
use grafted.Mach.Port.{
  MachMessage, Port, new_with_receive, new_send_only, new_with_send_receive, mach_port_right_send,
  mach_port_right_receive, mach_port_right_port_set, mach_port_right_dead_name, kern_success,
  kern_no_space, kern_invalid_argument, kern_invalid_name, mach_msg_type_move_receive,
  mach_msg_type_move_send, mach_msg_type_move_send_once, mach_msg_type_copy_send,
  mach_msg_type_make_send, mach_msg_type_make_send_once, mach_msg_success, mach_send_invalid_dest,
  special_port_task_self, special_port_thread_self, special_port_host_self, special_port_reply,
  special_port_bootstrap,
}

pub record PortSpace : Type 0 where
  pub ports : Map ℕ Port
  pub next_name : ℕ

-- `Result<u32, i32>`.
pub data KernResult : Type 0 where
  ok : ℕ → KernResult
  err : ℕ → KernResult

abbrev with_specials : Map ℕ Port → List ℕ → Map ℕ Port
with_specials m [] = m
with_specials m (k ∷ ks) = with_specials (insert m k new_with_send_receive) ks

unfoldable pub new : PortSpace
new = record {
  ports = with_specials [] (
      special_port_task_self ∷ special_port_thread_self ∷ special_port_host_self
      ∷ special_port_reply ∷ special_port_bootstrap ∷ []);
  next_name = 0x1000;
}

-- The port that `allocate` makes for a right.
unfoldable pub port_for : ℕ → Option Port
unfolding new_with_receive new_send_only
port_for right =
    if right == mach_port_right_receive
    then some new_with_receive
    else if right == mach_port_right_send
    then some new_send_only
    else if right == mach_port_right_port_set
    then some new_with_receive
    else if right == mach_port_right_dead_name
    then some (record new_send_only { is_dead = true })
    else none

unfoldable pub allocate : PortSpace → ℕ → PortSpace × KernResult
unfolding port_for
allocate ps right =
    let name = ps.next_name in
    let ps' : PortSpace = record ps { next_name = u32 (ps.next_name + 1) } in
    if ltb 0xFFFF_FFFE ps'.next_name then (ps', err kern_no_space) else elim (port_for right) [
      | none ↦ (ps', err kern_invalid_argument)
      | some port ↦ (record ps' { ports = insert ps.ports name port }, ok name)
    ]

-- An entry without rights is taken off the table.
unfoldable pub has_rights : Port → Bool
has_rights port = not ((port.send_count == 0) && not port.has_receive)

pub put_or_remove : PortSpace → ℕ → Port → PortSpace
unfolding has_rights
put_or_remove ps name port = record ps {
  ports = if has_rights port then insert ps.ports name port else remove ps.ports name;
}

unfoldable pub deallocate : PortSpace → ℕ → PortSpace × ℕ
unfolding put_or_remove
deallocate ps name = elim (lookup ps.ports name) [
  | none ↦ (ps, kern_invalid_name)
  | some port ↦ (
    put_or_remove ps name (record port {
      send_count = if ltb 0 port.send_count then port.send_count - 1 else port.send_count;
    }),
    kern_success,
  )
]

-- The entry that `insert_right` makes for a name that is not there.
unfoldable pub right_entry : ℕ → Option Port
unfolding new_send_only new_with_receive
right_entry poly_type =
    if (poly_type == mach_msg_type_make_send)
      || ((poly_type == mach_msg_type_copy_send) || (poly_type == mach_msg_type_move_send))
    then some new_send_only
    else if poly_type == mach_msg_type_move_receive
    then some new_with_receive
    else none

-- The entry that it makes of one that is.
unfoldable pub right_added : Port → ℕ → Option Port
right_added port poly_type =
    if (poly_type == mach_msg_type_make_send) || (poly_type == mach_msg_type_copy_send)
    then some (record port { send_count = u32 (port.send_count + 1) })
    else if poly_type == mach_msg_type_move_send
    then some (record port { send_count = u32 (port.send_count + 1) })
    else if poly_type == mach_msg_type_move_receive
    then some (record port { has_receive = true })
    else if (poly_type == mach_msg_type_make_send_once)
        || (poly_type == mach_msg_type_move_send_once)
    then some port
    else none

abbrev store : PortSpace → ℕ → Option Port → PortSpace × ℕ
store ps name none = (ps, kern_invalid_argument)
store ps name (some port) = (record ps { ports = insert ps.ports name port }, kern_success)

unfoldable pub insert_right : PortSpace → ℕ → ℕ → PortSpace × ℕ
unfolding right_entry right_added
insert_right ps name poly_type = elim (lookup ps.ports name) [
  | none ↦ store ps name (right_entry poly_type)
  | some port ↦ store ps name (right_added port poly_type)
]

-- An `i32` as its bit pattern: the sign, and a sum.
abbrev is_negative : ℕ → Bool
is_negative w = leb (2 ^ 31) w

pub mod_port : Port → ℕ → ℕ → Port
mod_port port right delta =
    if right == mach_port_right_send
    then record port {
      send_count =
          let new_count = u32 (port.send_count + delta) in
          if is_negative new_count then 0 else new_count;
    }
    else if right == mach_port_right_receive
    then (if is_negative delta then record port { has_receive = false } else port)
    else port

unfoldable pub mod_refs : PortSpace → ℕ → ℕ → ℕ → PortSpace × ℕ
unfolding put_or_remove mod_port
mod_refs ps name right delta = elim (lookup ps.ports name) [
  | none ↦ (ps, kern_invalid_name)
  | some port ↦ (put_or_remove ps name (mod_port port right delta), kern_success)
]

unfoldable pub send_msg : PortSpace → ℕ → MachMessage → PortSpace × ℕ
send_msg ps dest msg = elim (lookup ps.ports dest) [
  | none ↦ (ps, mach_send_invalid_dest)
  | some port ↦ if port.is_dead then (ps, mach_send_invalid_dest) else (
    record ps { ports = insert ps.ports dest (record port { queue = port.queue ++ msg ∷ [] }) },
    mach_msg_success,
  )
]

pop_front : PortSpace → ℕ → Port → List MachMessage → PortSpace × Option MachMessage
pop_front ps name port [] = (ps, none)
pop_front ps name port (m ∷ rest) =
    (record ps { ports = insert ps.ports name (record port { queue = rest }) }, some m)

unfoldable pub recv_msg : PortSpace → ℕ → PortSpace × Option MachMessage
unfolding pop_front
recv_msg ps port_name = elim (lookup ps.ports port_name) [
  | none ↦ (ps, none)
  | some port ↦ pop_front ps port_name port port.queue
]

type_bits : Port → ℕ
type_bits port =
    (if port.has_receive then 2 ^ 17 else 0)
    + (if ltb 0 port.send_count then 2 ^ 16 else 0)
    + (if port.is_dead then 2 ^ 20 else 0)

-- The method `port_type`; its bits are distinct, so `|=` is a sum.
unfoldable pub type_of : PortSpace → ℕ → ℕ
unfolding type_bits
type_of ps name = elim (lookup ps.ports name) [ none ↦ 0 | some port ↦ type_bits port ]

-- The API function `port_type`.
unfoldable pub port_type : PortSpace → ℕ → ℕ × ℕ
unfolding type_of
port_type ps name =
    let ptype = type_of ps name in
    if ptype == 0 then (kern_invalid_name, 0) else (kern_success, ptype)
