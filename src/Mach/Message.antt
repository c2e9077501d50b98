-- ===== src/Mach/Message.antt =====
-- crates/grafted-dyld/src/mach_ipc.rs: `mach_msg`.
-- The pointer `msg` is null, or a header with the bytes behind it that the caller owns.
-- `fault` is a read or a write beyond those bytes, which Rust leaves undefined.
pub mod Laws
use grafted.Base.{
  ℕ, ◌+◌, ◌-◌, ◌^◌, min, List, ◌++◌, Option, none, some, ◌==◌, nat_eq, ltb, if◌then◌else◌, has_bit,
  u32, u64, length, take, drop,
}
use grafted.Mach.Port.{
  MachMsgHeader, MachMessage, header_size, kern_invalid_argument, mach_msg_success,
  mach_rcv_timed_out,
}
use grafted.Mach.Space.{PortSpace, send_msg, recv_msg}

pub record Buffer : Type 0 where
  pub header : MachMsgHeader
  pub space : List ℕ

pub data Outcome : Type 0 where
  done : PortSpace → Option Buffer → ℕ → Outcome
  fault : Outcome

-- The bits of `MACH_SEND_MSG` and `MACH_RCV_MSG`.
abbrev pub send_bit : ℕ
send_bit = 0

abbrev pub rcv_bit : ℕ
rcv_bit = 1

-- The bytes of a body that are copied out. `rcv_size - 24` wraps in `usize`.
unfoldable pub copy_len : ℕ → ℕ → ℕ
copy_len body_len rcv_size = min body_len (u64 (rcv_size + 2 ^ 64 - header_size))

-- What is written back for a message: its header with the size that was copied, and the body as
-- far as it fits.
unfoldable pub deliver : PortSpace → Buffer → ℕ → MachMessage → Outcome
deliver ps buf rcv_size m =
    let n = copy_len (length m.body) rcv_size in
    if ltb (length buf.space) n
    then fault
    else (done ps
        (some (record {
          header = record (m.header) { msgh_size = u32 (header_size + n) };
          space = take n m.body ++ drop n buf.space;
        }))
        mach_msg_success)

-- Both branches on `MACH_RCV_TIMEOUT` return the same code.
unfoldable pub receive : PortSpace → Buffer → ℕ → ℕ → Outcome
receive ps buf rcv_size port =
    let (ps', got) = recv_msg ps port in
    elim got [ none ↦ done ps' (some buf) mach_rcv_timed_out | some m ↦ deliver ps' buf rcv_size m ]

pub receive_phase : PortSpace → Buffer → ℕ → ℕ → ℕ → Outcome
receive_phase ps buf option rcv_size rcv_name =
    if has_bit option rcv_bit
    then receive ps buf rcv_size
        (if has_bit option send_bit then buf.header.msgh_local_port else rcv_name)
    else done ps (some buf) mach_msg_success

unfoldable pub message_of : Buffer → ℕ → MachMessage
message_of buf send_size = record {
  header = buf.header;
  body = take (send_size - header_size) buf.space;
}

unfoldable pub mach_msg : PortSpace → Option Buffer → ℕ → ℕ → ℕ → ℕ → Outcome
unfolding receive_phase message_of
mach_msg ps none option send_size rcv_size rcv_name = done ps none kern_invalid_argument
mach_msg ps (some buf) option send_size rcv_size rcv_name =
    if has_bit option send_bit
    then (if ltb (length buf.space) (send_size - header_size)
        then fault
        else (let (ps', ret) = send_msg ps buf.header.msgh_remote_port (message_of buf send_size) in
            if ret == mach_msg_success
            then receive_phase ps' buf option rcv_size rcv_name
            else done ps' (some buf) ret))
    else receive_phase ps buf option rcv_size rcv_name
