-- ===== src/Mach/Space/Queues.antt =====
-- A port's queue is first in, first out.
use grafted.Base.{
  ℕ, zero, suc, ◌≡◌, refl, ◌∙◌, Bool, true, false, List, [], ◌∷◌, ◌++◌, Option, none, some, arith,
  ◌==◌, nat_eq, if◌then◌else◌, length, Option-cases, inl, inr,
}
use mathlib.Core.List.{append-nil, append_assoc}
use grafted.Base.Assoc.{lookup-insert}
use grafted.Mach.Port.{MachMessage, Port, mach_msg_success, mach_send_invalid_dest}
use grafted.Mach.Space.{PortSpace, send_msg, recv_msg, pop_front}
use grafted.Mach.Space.Laws.{port_at}

abbrev pub queue_in : Option Port → List MachMessage
queue_in none = []
queue_in (some p) = p.queue

-- What waits at a port; nothing waits where there is none.
abbrev pub queue_at : PortSpace → ℕ → List MachMessage
queue_at ps n = queue_in (port_at ps n)

abbrev pub live_in : Option Port → Bool
live_in none = false
live_in (some p) = elim p.is_dead [ true ↦ false | false ↦ true ]

-- A port that is there and not dead.
abbrev pub is_live : PortSpace → ℕ → Bool
is_live ps n = live_in (port_at ps n)

-- A message to a live port goes to the end of its queue, and to no other; a dead or missing port
-- refuses it and nothing changes. No send makes or breaks a port.
pub send_msg_appends :
    (ps : PortSpace) (dest n : ℕ) (m : MachMessage)
    → (is_live ps dest ≡ true
        → ((send_msg ps dest m).1 ≡ mach_msg_success)
          × (queue_at (send_msg ps dest m).0 n
              ≡ (if dest == n then queue_at ps n ++ m ∷ [] else queue_at ps n)))
      × (is_live ps dest ≡ false → send_msg ps dest m ≡ (ps, mach_send_invalid_dest))
      × (is_live (send_msg ps dest m).0 n ≡ is_live ps n)
unfolding send_msg
send_msg_appends ps dest n m = elim (Option-cases (port_at ps dest)) [
  | inl missing ↦ (λ h. ground arith, λ h. ground arith, ground arith)
  | inr (q, found) ↦
      let law = lookup-insert ps.ports dest n (record q { queue = q.queue ++ m ∷ [] }) in
      (λ h. ground (arith, law), λ h. ground arith, ground (arith, law))
]

recv_msg_found :
    (ps : PortSpace) (name : ℕ) (q : Port)
    → port_at ps name ≡ some q
    → recv_msg ps name ≡ pop_front ps name q q.queue
unfolding recv_msg
recv_msg_found ps name q found = rw (found, recv_msg)

-- A receive takes the oldest message off its own queue only, and from an empty queue takes none
-- and changes nothing.
pub recv_msg_takes_oldest :
    (ps : PortSpace) (name n : ℕ)
    → (queue_at ps name ≡ [] → recv_msg ps name ≡ (ps, none))
      × ((m : MachMessage) (rest : List MachMessage)
          → queue_at ps name ≡ m ∷ rest
          → ((recv_msg ps name).1 ≡ some m)
            × (queue_at (recv_msg ps name).0 n ≡ (if name == n then rest else queue_at ps n)))
unfolding recv_msg
recv_msg_takes_oldest ps name n = elim (Option-cases (port_at ps name)) [
  | inl missing ↦ (λ h. ground arith, λ m rest h. ground arith)
  | inr (q, found) ↦ (
    λ h. ground arith,
    λ m rest h. ground (arith, lookup-insert ps.ports name n (record q { queue = rest })),
  )
]

unfoldable pub send_all : PortSpace → ℕ → List MachMessage → PortSpace
send_all ps dest [] = ps
send_all ps dest (m ∷ ms) = send_all (send_msg ps dest m).0 dest ms

unfoldable pub recv_all : ℕ → PortSpace → ℕ → PortSpace × List MachMessage
recv_all zero ps name = (ps, [])
recv_all (suc k) ps name =
    let (ps', got) = recv_msg ps name in
    let (ps'', ms) = recv_all k ps' name in (ps'', elim got [ none ↦ ms | some m ↦ m ∷ ms ])

send_all-queue_at :
    (ms : List MachMessage) (ps : PortSpace) (dest : ℕ)
    → is_live ps dest ≡ true
    → queue_at (send_all ps dest ms) dest ≡ queue_at ps dest ++ ms
unfolding send_all
send_all-queue_at [] ps dest h = rw append-nil
send_all-queue_at (m ∷ ms) ps dest h =
    send_all-queue_at ms (send_msg ps dest m).0 dest
      (ground (arith, send_msg_appends ps dest dest m))
    ∙ ground (arith, send_msg_appends ps dest dest m, append_assoc (queue_at ps dest) (m ∷ []) ms)

recv_all-queue_at :
    (ms : List MachMessage) (ps : PortSpace) (name : ℕ)
    → queue_at ps name ≡ ms
    → ((recv_all (length ms) ps name).1 ≡ ms)
      × (queue_at (recv_all (length ms) ps name).0 name ≡ [])
unfolding recv_all
recv_all-queue_at [] ps name h = (refl, h)
recv_all-queue_at (m ∷ ms) ps name h = ground (
  arith,
  recv_msg_takes_oldest ps name name,
  (recv_msg_takes_oldest ps name name).1 m ms h,
  recv_all-queue_at ms (recv_msg ps name).0 name,
)

-- What is sent to a live port is received complete and in order, behind what waited there.
pub recv_all-send_all :
    (ps : PortSpace) (dest : ℕ) (ms : List MachMessage)
    → is_live ps dest ≡ true
    → let all = queue_at ps dest ++ ms in
      let received = recv_all (length all) (send_all ps dest ms) dest in
      (received.1 ≡ all) × (queue_at received.0 dest ≡ [])
recv_all-send_all ps dest ms h =
    recv_all-queue_at (queue_at ps dest ++ ms) (send_all ps dest ms) dest
      (send_all-queue_at ms ps dest h)
