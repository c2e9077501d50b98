-- ===== src/Mach/Message/Laws.antt =====
-- What `mach_msg` sends, receives and leaves alone.
use grafted.Base.{
  ℕ, ◌+◌, ◌-◌, ◌^◌, ◌≤◌, ◌<◌, ◌≡◌, ◌≢◌, ◌∙◌, true, false, List, [], ◌∷◌, ◌++◌, some, arith, length,
  take, drop, u32, length-take, take_of_length-le, has_bit,
}
use grafted.Mach.Port.{MachMessage, header_size, mach_msg_success, mach_send_invalid_dest}
use grafted.Mach.Space.{PortSpace, send_msg, recv_msg}
use grafted.Mach.Space.Queues.{queue_at, is_live, send_msg_appends, recv_msg_takes_oldest}
use grafted.Mach.Message.{
  Buffer, send_bit, copy_len, done, fault, deliver, receive, message_of, mach_msg,
}

abbrev pub send_only : ℕ
send_only = 1

abbrev pub rcv_only : ℕ
rcv_only = 2

abbrev pub send_and_rcv : ℕ
send_and_rcv = 3

-- The buffer after a message was delivered into it.
abbrev pub filled : Buffer → MachMessage → Buffer
filled buf m = record {
  header = record (m.header) { msgh_size = u32 (header_size + length m.body) };
  space = m.body ++ drop (length m.body) buf.space;
}

copy_len_fits :
    (n rcv_size : ℕ) → header_size + n ≤ rcv_size → rcv_size < 2 ^ 32 → copy_len n rcv_size ≡ n
unfolding copy_len
copy_len_fits n rcv_size le lt = omega arith

copy_len_wraps : (n rcv_size : ℕ) → rcv_size < header_size → n < 2 ^ 63 → copy_len n rcv_size ≡ n
unfolding copy_len
copy_len_wraps n rcv_size lt small = omega arith

deliver_fits :
    (ps : PortSpace) (buf : Buffer) (rcv_size : ℕ) (m : MachMessage)
    → header_size + length m.body ≤ rcv_size
    → rcv_size < 2 ^ 32
    → length m.body ≤ length buf.space
    → deliver ps buf rcv_size m ≡ done ps (some (filled buf m)) mach_msg_success
unfolding deliver
deliver_fits ps buf rcv_size m le lt fits =
    rw (copy_len_fits (length m.body) rcv_size le lt)
      (ground (arith, take_of_length-le (length m.body) m.body))

mach_msg_receives :
    (ps : PortSpace) (buf : Buffer) (send_size rcv_size name : ℕ) (m : MachMessage)
    → (recv_msg ps name).1 ≡ some m
    → mach_msg ps (some buf) rcv_only send_size rcv_size name
      ≡ deliver (recv_msg ps name).0 buf rcv_size m
unfolding mach_msg receive
mach_msg_receives ps buf send_size rcv_size name m e = ground arith

-- A message that one call sends from a buffer to a live, empty port is what a later call on that
-- port receives, if the buffers are as large as the sizes that the calls state: the header comes
-- back with the message's size in it, the body follows it, and the rest of the buffer is untouched.
pub mach_msg_roundtrip :
    (ps : PortSpace) (from to : Buffer) (send_size rcv_size r : ℕ)
    → is_live ps from.header.msgh_remote_port ≡ true
    → queue_at ps from.header.msgh_remote_port ≡ []
    → header_size ≤ send_size
    → send_size ≤ rcv_size
    → rcv_size < 2 ^ 32
    → send_size - header_size ≤ length from.space
    → send_size - header_size ≤ length to.space
    → (sent : PortSpace) × (received : PortSpace) × (mach_msg ps (some from) send_only send_size 0 r
        ≡ done sent (some from) mach_msg_success)
      × (mach_msg sent (some to) rcv_only 0 rcv_size from.header.msgh_remote_port
          ≡ done received
              (some (record {
                header = record (from.header) { msgh_size = send_size };
                space =
                    take (send_size - header_size) from.space
                    ++ drop (send_size - header_size) to.space;
              }))
              mach_msg_success)
unfolding mach_msg message_of
mach_msg_roundtrip ps from to send_size rcv_size r live empty ge le lt have room =
    let dest = from.header.msgh_remote_port in
    let m = message_of from send_size in
    let sent = (send_msg ps dest m).0 in
    let size : length m.body ≡ send_size - header_size =
      omega (arith, length-take (send_size - header_size) from.space) in
    let got : (recv_msg sent dest).1 ≡ some m =
      ground
        (arith, send_msg_appends ps dest dest m, (recv_msg_takes_oldest sent dest dest).1 m []) in
    (
      sent,
      (recv_msg sent dest).0,
      ground (arith, send_msg_appends ps dest dest m),
      mach_msg_receives sent to 0 rcv_size dest m got
          ∙ (deliver_fits (recv_msg sent dest).0 to rcv_size m (omega (arith, size)) lt
                (omega (arith, size))
              ∙ ground (arith, size)),
    )

-- A receive writes within the `rcv_size` bytes that the caller states, if these hold a header.
pub mach_msg_receive_in_bounds :
    (ps : PortSpace) (buf : Buffer) (send_size rcv_size name : ℕ)
    → header_size ≤ rcv_size
    → rcv_size < 2 ^ 32
    → rcv_size - header_size ≤ length buf.space
    → mach_msg ps (some buf) rcv_only send_size rcv_size name ≢ fault
unfolding mach_msg receive deliver copy_len
mach_msg_receive_in_bounds ps buf send_size rcv_size name ge lt room e = ground arith

-- A stated size below that of a header is not refused: the room for the body wraps, and a message
-- whose body is longer than the buffer is written beyond it.
pub mach_msg_short_overrun :
    (ps : PortSpace) (buf : Buffer) (send_size rcv_size name : ℕ) (m : MachMessage)
    (rest : List MachMessage)
    → rcv_size < header_size
    → queue_at ps name ≡ m ∷ rest
    → length buf.space < length m.body
    → length m.body < 2 ^ 63
    → mach_msg ps (some buf) rcv_only send_size rcv_size name ≡ fault
unfolding deliver
mach_msg_short_overrun ps buf send_size rcv_size name m rest short waits long small =
    mach_msg_receives ps buf send_size rcv_size name m
      ((recv_msg_takes_oldest ps name name).1 m rest waits).0
    ∙ rw (copy_len_wraps (length m.body) rcv_size short small) (ground arith)

-- A send to a dead or missing port ends the call there, also if it was to receive as well.
pub mach_msg_dead_dest :
    (ps : PortSpace) (buf : Buffer) (option send_size rcv_size name : ℕ)
    → has_bit option send_bit ≡ true
    → is_live ps buf.header.msgh_remote_port ≡ false
    → send_size - header_size ≤ length buf.space
    → mach_msg ps (some buf) option send_size rcv_size name
      ≡ done ps (some buf) mach_send_invalid_dest
unfolding mach_msg message_of
mach_msg_dead_dest ps buf option send_size rcv_size name sends dead have =
    let dest = buf.header.msgh_remote_port in
    ground (arith, send_msg_appends ps dest dest (message_of buf send_size))

-- A call that sends and receives reads the reply port of the message it sent, not `rcv_name`.
pub mach_msg_rpc :
    (ps : PortSpace) (buf : Buffer) (send_size rcv_size name : ℕ)
    → is_live ps buf.header.msgh_remote_port ≡ true
    → send_size - header_size ≤ length buf.space
    → mach_msg ps (some buf) send_and_rcv send_size rcv_size name
      ≡ receive
          (send_msg ps buf.header.msgh_remote_port (message_of buf send_size)).0
          buf
          rcv_size
          buf.header.msgh_local_port
unfolding mach_msg message_of
mach_msg_rpc ps buf send_size rcv_size name live have =
    let dest = buf.header.msgh_remote_port in
    ground (arith, send_msg_appends ps dest dest (message_of buf send_size))
