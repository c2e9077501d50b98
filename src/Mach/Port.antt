-- ===== src/Mach/Port.antt =====
-- crates/grafted-dyld/src/mach_ipc.rs: constants, message headers, ports.
use grafted.Base.{ℕ, Bool, true, false, List, []}

abbrev pub mach_port_dead : ℕ
mach_port_dead = 0xFFFF_FFFF

abbrev pub mach_port_right_send : ℕ
mach_port_right_send = 0

abbrev pub mach_port_right_receive : ℕ
mach_port_right_receive = 1

abbrev pub mach_port_right_port_set : ℕ
mach_port_right_port_set = 3

abbrev pub mach_port_right_dead_name : ℕ
mach_port_right_dead_name = 4

abbrev pub kern_success : ℕ
kern_success = 0

abbrev pub kern_no_space : ℕ
kern_no_space = 3

abbrev pub kern_invalid_argument : ℕ
kern_invalid_argument = 4

abbrev pub kern_invalid_name : ℕ
kern_invalid_name = 15

abbrev pub mach_msg_type_move_receive : ℕ
mach_msg_type_move_receive = 16

abbrev pub mach_msg_type_move_send : ℕ
mach_msg_type_move_send = 17

abbrev pub mach_msg_type_move_send_once : ℕ
mach_msg_type_move_send_once = 18

abbrev pub mach_msg_type_copy_send : ℕ
mach_msg_type_copy_send = 19

abbrev pub mach_msg_type_make_send : ℕ
mach_msg_type_make_send = 20

abbrev pub mach_msg_type_make_send_once : ℕ
mach_msg_type_make_send_once = 21

abbrev pub mach_msg_success : ℕ
mach_msg_success = 0

abbrev pub mach_send_invalid_dest : ℕ
mach_send_invalid_dest = 0x1000_0002

abbrev pub mach_rcv_timed_out : ℕ
mach_rcv_timed_out = 0x1000_0003

abbrev pub special_port_task_self : ℕ
special_port_task_self = 0x103

abbrev pub special_port_thread_self : ℕ
special_port_thread_self = 0x203

abbrev pub special_port_host_self : ℕ
special_port_host_self = 0x303

abbrev pub special_port_reply : ℕ
special_port_reply = 0x307

abbrev pub special_port_bootstrap : ℕ
special_port_bootstrap = 0x40b

-- Every field is a `u32`, but `msgh_id`, an `i32` held as its bit pattern.
pub record MachMsgHeader : Type 0 where
  pub msgh_bits : ℕ
  pub msgh_size : ℕ
  pub msgh_remote_port : ℕ
  pub msgh_local_port : ℕ
  pub msgh_voucher_port : ℕ
  pub msgh_id : ℕ

-- `size_of::<MachMsgHeader>()`: six words of four bytes.
abbrev pub header_size : ℕ
header_size = 24

pub record MachMessage : Type 0 where
  pub header : MachMsgHeader
  pub body : List ℕ

pub record Port : Type 0 where
  pub send_count : ℕ
  pub has_receive : Bool
  pub is_dead : Bool
  pub queue : List MachMessage

unfoldable pub new_with_receive : Port
new_with_receive = record { send_count = 0; has_receive = true; is_dead = false; queue = [] }

unfoldable pub new_send_only : Port
new_send_only = record { send_count = 1; has_receive = false; is_dead = false; queue = [] }

unfoldable pub new_with_send_receive : Port
new_with_send_receive = record { send_count = 1; has_receive = true; is_dead = false; queue = [] }
