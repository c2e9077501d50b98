-- ===== src/Loader/Executor/Selectors.antt =====
-- crates/grafted-loader/src/executor.rs: `selector_page`, `alloc_thread_selector`, `setup_thread_sud`
-- and `grafted_selector_allow`, by the atomic actions of racing threads. A null pointer is 0.
pub mod Laws
use grafted.Base.{
  ℕ, ◌+◌, ◌^◌, ◌≢◌, Bool, true, false, Option, none, some, ◌==◌, nat_eq, ltb, if◌then◌else◌, u64,
}
use grafted.Loader.Memory.{Memory, put}

abbrev pub syscall_dispatch_filter_allow : ℕ
syscall_dispatch_filter_allow = 0

abbrev pub syscall_dispatch_filter_block : ℕ
syscall_dispatch_filter_block = 1

-- What the threads share: SELECTOR_PAGE, SELECTOR_NEXT and the memory.
pub record Shared : Type 0 where
  pub selector_page : ℕ
  pub selector_next : ℕ
  pub memory : Memory

-- Where a thread is in `alloc_thread_selector`: before the load; with a null page loaded; with a page
-- of its own; after a lost exchange; with the shared page; with an offset in it; and with its
-- selector byte, and the value it wrote there last.
pub data Phase : Type 0 where
  start : Phase
  unmapped : Phase
  own_page : ℕ → Phase
  lost : Phase
  paged : ℕ → Phase
  took : ℕ → ℕ → Phase
  ready : ℕ → ℕ → ℕ → Phase
  panicked : Phase

-- The next atomic action of a thread; `mmap` is what `mmap_anonymous` answers if it is called.
unfoldable pub advance : Option ℕ → Shared → Phase → Shared × Phase
advance mmap sh start =
    (sh, if Shared.selector_page sh == 0 then unmapped else paged (Shared.selector_page sh))
advance none sh unmapped = (sh, panicked)
advance (some new_ptr) sh unmapped = (sh, own_page new_ptr)
advance mmap sh (own_page new_ptr) =
    if Shared.selector_page sh == 0
    then (record sh { selector_page = new_ptr }, paged new_ptr)
    else (sh, lost)
advance mmap sh lost = (sh, paged (Shared.selector_page sh))
advance mmap sh (paged page) = (
  record sh { selector_next = u64 (Shared.selector_next sh + 1) },
  took page (Shared.selector_next sh),
)
advance mmap sh (took page offset) =
    if ltb offset 4096
    then (
      record sh { memory = put (Shared.memory sh) (page + offset) syscall_dispatch_filter_allow },
      ready page offset syscall_dispatch_filter_allow,
    )
    else (sh, panicked)
advance mmap sh (ready page offset value) = (sh, ready page offset value)
advance mmap sh panicked = (sh, panicked)

-- A thread with a selector writes it: BLOCK in `setup_thread_sud` and in the trampoline, ALLOW in
-- `grafted_selector_allow` and in the handler.
unfoldable pub write_selector : ℕ → Shared → Phase → Shared × Phase
write_selector value sh (ready page offset old) =
    (record sh { memory = put (Shared.memory sh) (page + offset) value }, ready page offset value)
write_selector value sh ph = (sh, ph)

pub record State : Type 0 where
  pub shared : Shared
  pub threads : ℕ → Phase

-- One thread acts.
abbrev pub act : (Shared → Phase → Shared × Phase) → ℕ → State → State
act action i s =
    let (sh, ph) = action (State.shared s) (State.threads s i) in
    record { shared = sh; threads = λ j. if j == i then ph else State.threads s j }

-- Any thread may act next. `mmap_anonymous` without an address never answers with null.
pub data Step : State → State → Type 0 where
  advances : (i : ℕ) (mmap : Option ℕ) (s : State) → mmap ≢ some 0 → Step s (act (advance mmap) i s)
  writes : (i value : ℕ) (s : State) → Step s (act (write_selector value) i s)

abbrev pub initial : Memory → State
initial m = record {
  shared = record { selector_page = 0; selector_next = 0; memory = m };
  threads = λ i. start;
}

-- The states after a number of steps.
pub data Reaches (m : Memory) : ℕ → State → Type 0 where
  begin : Reaches m 0 (initial m)
  more : {n : ℕ} {s s' : State} → Reaches m n s → Step s s' → Reaches m (n + 1) s'
