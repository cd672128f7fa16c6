-- ===== src/Process.antt =====
-- kernel/process.cpp: processes in a circular list, and the switch on every timer tick.
-- Process structures live in `procs` by address, the words of their stacks in `words`. The heap is
-- the parameter `kmalloc`, where `none` is a fault; the code segment is the parameter `cs`. The
-- messages to the serial port are left out.
pub mod Frame
pub mod Ring
pub mod Turns
pub mod Runner
use issanium.Prelude.{
  ℕ, zero, suc, ◌+◌, ◌-◌, ◌*◌, ◌/◌, ◌%◌, ◌^◌, Bool, true, false, ◌==◌, if◌then◌else◌, Option, none,
  some, List, [], ◌∷◌,
}
use issanium.Prelude.Word.{u32}
use issanium.Prelude.Memory.{write}

pub data ProcessState : Type 0 where
  ready running blocked terminated : ProcessState

pub record Process : Type 0 where
  pub rsp : ℕ
  pub stack : ℕ
  pub cr3 : ℕ
  pub pid : ℕ
  pub state : ProcessState
  pub next : ℕ

pub record Scheduler : Type 0 where
  pub current : ℕ
  pub next_pid : ℕ
  pub timer_ticks : ℕ
  pub procs : ℕ → Process
  pub words : ℕ → ℕ

abbrev pub stack_size : ℕ
stack_size = 4096 * 4

abbrev pub process_size : ℕ
process_size = 40

-- *--stack_top = v, for each value in turn.
unfoldable pub push_all : List ℕ → ℕ → (ℕ → ℕ) → ℕ × (ℕ → ℕ)
push_all [] top m = (top, m)
push_all (v ∷ vs) top m = push_all vs (top - 8) (write m (top - 8) v)

-- The fake interrupt frame from the top down: ss, rsp, rflags, cs, rip, then r15 to rbp.
abbrev pub frame : ℕ → ℕ → ℕ → List ℕ
frame cs stack entry =
    0
    ∷ (stack + stack_size)
    ∷ 0x202
    ∷ cs
    ∷ entry
    ∷ 0
    ∷ 0
    ∷ 0
    ∷ 0
    ∷ 0
    ∷ 0
    ∷ 0
    ∷ 0
    ∷ 0
    ∷ 0
    ∷ 0
    ∷ 0
    ∷ 0
    ∷ 0
    ∷ 0
    ∷ []

-- proc->next = current->next; current->next = proc;
unfoldable pub insert_after : ℕ → Process → Scheduler → Scheduler
insert_after proc p s =
    let linked = write s.procs proc (record p { next = (s.procs s.current).next }) in
    record s { procs = write linked s.current (record (linked s.current) { next = proc }) }

-- The circular list: alone, or behind `current`.
unfoldable pub link : ℕ → Process → Scheduler → Scheduler
unfolding insert_after
link proc p s =
    if s.current == 0
    then record s { current = proc; procs = write s.procs proc (record p { next = proc }) }
    else insert_after proc p s

-- The fields that are filled in before the process is linked.
abbrev pub new_process : ℕ → ℕ → ℕ → Process
new_process top stack pid = record {
  rsp = top;
  stack = stack;
  cr3 = 0;
  pid = pid;
  state = ProcessState.ready;
  next = 0;
}

-- `create_process` once the heap has given the structure `proc` and the stack.
unfoldable pub set_up : ℕ → ℕ → ℕ → ℕ → Scheduler → Scheduler
set_up cs entry proc stack s =
    let (top, m) = push_all (frame cs stack entry) (stack + stack_size) s.words in
    link proc (new_process top stack s.next_pid)
      (record s { next_pid = u32 (s.next_pid + 1); words = m })

module _ {H : Type 0} (kmalloc : ℕ → H → Option (ℕ × H)) (cs : ℕ) where
  unfoldable pub create_process : ℕ → Scheduler → H → Option (Scheduler × H)
  create_process entry s h = elim (kmalloc process_size h) [
    | none ↦ none
    | some (proc, h1) ↦ elim (kmalloc stack_size h1) [
      | none ↦ none
      | some (stack, h2) ↦ some (set_up cs entry proc stack s, h2)
    ]
  ]

-- The write through `current`, in `schedule` and in `start_scheduling`.
abbrev pub put : Scheduler → ℕ → Process → Scheduler
put s proc p = record s { procs = write s.procs proc p }

-- current->rsp = rsp; current->state = READY;
unfoldable pub save_current : ℕ → Scheduler → Scheduler
save_current rsp s =
    put s s.current (record (s.procs s.current) { rsp = rsp; state = ProcessState.ready })

-- current = next; current->state = RUNNING;
unfoldable pub enter : ℕ → Scheduler → Scheduler
enter next s = record (put s next (record (s.procs next) { state = ProcessState.running })) {
  current = next;
}

unfoldable pub schedule : ℕ → Scheduler → ℕ × Scheduler
schedule rsp s =
    let ticked = record s { timer_ticks = u32 (s.timer_ticks + 1) } in
    let saved = save_current rsp ticked in
    let entered = enter (saved.procs saved.current).next saved in
    if s.current == 0 then (rsp, ticked) else ((entered.procs entered.current).rsp, entered)

-- What the fifteen pops and `iretq` load from the stack.
pub record Context : Type 0 where
  pub registers : List ℕ
  pub rip : ℕ
  pub cs : ℕ
  pub rflags : ℕ
  pub rsp : ℕ
  pub ss : ℕ

abbrev pub pop_words : ℕ → ℕ → (ℕ → ℕ) → List ℕ
pop_words zero at m = []
pop_words (suc n) at m = m at ∷ pop_words n (at + 8) m

abbrev pub load_context : ℕ → (ℕ → ℕ) → Context
load_context at m = record {
  registers = pop_words 15 at m;
  rip = m (at + 120);
  cs = m (at + 128);
  rflags = m (at + 136);
  rsp = m (at + 144);
  ss = m (at + 152);
}

-- `none` is the access through a null `current`.
unfoldable pub start_scheduling : Scheduler → Option (Context × Scheduler)
start_scheduling s =
    let started = put s s.current (record (s.procs s.current) { state = ProcessState.running }) in
    if s.current == 0
    then none
    else some (load_context (started.procs s.current).rsp started.words, started)
