-- ===== src/Stubs.antt =====
-- kernel/interrupt_stub.asm: what the stubs save on the stack of what they interrupt, what they
-- pass on, and what they resume. The processor's own part, from its manual, is `enter_gate`:
-- it aligns the stack and pushes five words; `iretq` is part of `load_context`.
pub mod Saved
pub mod Faults
pub mod Resumes
pub mod Start
pub mod Isolation
pub mod Idle
pub mod Lines
use issanium.Prelude.{
  ℕ, zero, suc, ◌+◌, ◌-◌, ◌*◌, ◌/◌, Bool, true, false, ◌==◌, ltb, leb, ◌&&◌, ◌||◌, if◌then◌else◌,
  List, [], ◌∷◌, set, get_or,
}
use issanium.Prelude.Memory.{write}
use issanium.Process.{Context, Scheduler, load_context, schedule}
use issanium.Interrupts.{Out, outb, Stub, interrupt_stub, interrupt_stub_timer}

-- The pushes that the pops in the order of `vs` undo: the last of `vs` first.
unfoldable pub push_back : List ℕ → ℕ → (ℕ → ℕ) → ℕ × (ℕ → ℕ)
push_back [] top m = (top, m)
push_back (v ∷ vs) top m = let (t, pushed) = push_back vs top m in (t - 8, write pushed (t - 8) v)

-- ss, rsp, rflags, cs and rip, below the stack pointer of what is interrupted.
unfoldable pub enter_gate : Context → (ℕ → ℕ) → ℕ × (ℕ → ℕ)
enter_gate c m = push_back (c.rip ∷ c.cs ∷ c.rflags ∷ c.rsp ∷ c.ss ∷ []) (c.rsp / 16 * 16) m

-- push rbp, push rax, …, push r15; `registers` has them from r15 to rbp.
unfoldable pub push_registers : List ℕ → ℕ × (ℕ → ℕ) → ℕ × (ℕ → ℕ)
push_registers registers (top, m) = push_back registers top m

abbrev pub save_context : Context → (ℕ → ℕ) → ℕ × (ℕ → ℕ)
save_context c m = push_registers c.registers (enter_gate c m)

-- The vectors of ISR_ERR.
abbrev pub has_error_code : ℕ → Bool
has_error_code vector = vector == 8 || (leb 10 vector && leb vector 14)

-- What a stub calls handle_interrupt_cpp with, and the stack that it leaves to it.
pub record Call : Type 0 where
  pub vector : ℕ
  pub error_code : ℕ
  pub top : ℕ
  pub words : ℕ → ℕ

unfoldable pub isr_noerr : ℕ → Context → (ℕ → ℕ) → Call
isr_noerr vector c m =
    let saved = save_context c m in
    record { vector = vector; error_code = 0; top = saved.0; words = saved.1 }

-- The places of rsi and of r8 among the registers from r15 on.
abbrev pub at_rsi : ℕ
at_rsi = 9

abbrev pub at_r8 : ℕ
at_r8 = 7

-- The processor pushes `error_code` as well; `pop rsi` takes it off before the other pushes, and
-- the second argument is read back from [rsp + 8*7].
unfoldable pub isr_err : ℕ → ℕ → Context → (ℕ → ℕ) → Call
isr_err vector error_code c m =
    let (top, entered) = enter_gate c m in
    let pushed = write entered (top - 8) error_code in
    let rsi = pushed (top - 8) in
    let saved = push_registers (set c.registers at_rsi rsi) (top, pushed) in
    record {
      vector = vector;
      error_code = saved.1 (saved.0 + 8 * 7);
      top = saved.0;
      words = saved.1;
    }

-- The stub of vector `n`; `error_code` is what the processor pushes, if it pushes one.
unfoldable pub run_stub : ℕ → ℕ → Context → (ℕ → ℕ) → Call
run_stub n error_code c m = if has_error_code n then isr_err n error_code c m else isr_noerr n c m

-- What the call of `schedule` takes of the stack at most: its return address and the frames of the
-- compiled code, which are the compiler's choice.
abbrev pub call_room : ℕ
call_room = 1024

-- The call may leave anything in that room, below the stack pointer `top`.
unfoldable pub call_frames : (ℕ → ℕ) → ℕ × (ℕ → ℕ) → ℕ → ℕ
call_frames below (top, m) a = if leb top (a + call_room) && ltb a top then below a else m a

-- interrupt_stub_timer: the context that it resumes, and its write to the interrupt controller;
-- `below` is what the call of `schedule` leaves below the saved context.
unfoldable pub stub_timer : (ℕ → ℕ) → Context → Scheduler → Context × Scheduler × List Out
stub_timer below c s =
    let saved = save_context c s.words in
    let r = schedule saved.0 (record s { words = call_frames below saved }) in
    (load_context r.0 r.1.words, r.1, outb 0x20 0x20 ∷ [])
