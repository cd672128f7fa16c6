-- ===== src/Kmain.antt =====
-- kernel/main.cpp: kmain, from the loader to the first process: what it sets up in the memory, on
-- the board and among the processes. No interrupt falls into it.
pub mod Blocks
pub mod Processes
pub mod Ready
pub mod Start
pub mod Overflow
pub mod Ticks
pub mod Clients
use issanium.Pmm.Init.{Entry}
use issanium.Prelude.{Bool, true, ◌==◌, ◌&&◌, if◌then◌else◌, ℕ, Option, none, some, List, [], ◌∷◌}
use issanium.Pmm.{Pmm}
use issanium.Vmm.{Vmm}
use issanium.Heap.{Heap, Run, done, page_fault, out_of_fuel, kmalloc}
use issanium.Boot.{kernel_paging, start_memory}
use issanium.Interrupts
use issanium.Interrupts.{Cpu, Stub, Out}
use issanium.Serial.{serial_init}
use issanium.Mouse.Setup.{init_mouse}
use issanium.Framebuffer.{Screen, Drawing, init_framebuffer}
use issanium.Writer.{Font, init_returns}
use mathlib.Core.Option
use issanium.Process.{Context, Scheduler, create_process, start_scheduling}

-- A page fault stops the kernel.
abbrev pub returned : {S A : Type 0} → Run S A → Option (A × Heap S)
returned (done a h) = some (a, h)
returned (page_fault a) = none
returned out_of_fuel = none

-- `kmalloc` over the kernel's page tables and page allocator.
unfoldable pub heap_kmalloc : ℕ → ℕ → ℕ → Heap (Vmm Pmm) → Option (ℕ × Heap (Vmm Pmm))
heap_kmalloc walk fuel size h = returned (kmalloc kernel_paging walk fuel size h)

module _ (walk fuel cs : ℕ) where
  -- create_process(entry), for each entry in turn.
  unfoldable pub create_all :
      List ℕ → Scheduler → Heap (Vmm Pmm) → Option (Scheduler × Heap (Vmm Pmm))
  create_all [] s h = some (s, h)
  create_all (entry ∷ entries) s h = elim (create_process (heap_kmalloc walk fuel) cs entry s h) [
    | none ↦ none
    | some (s1, h1) ↦ create_all entries s1 h1
  ]

  -- The end of kmain: the three processes, and start_scheduling().
  unfoldable pub start_processes :
      ℕ → ℕ → ℕ → Scheduler → Heap (Vmm Pmm) → Option (Context × Scheduler × Heap (Vmm Pmm))
  start_processes a b render s h = elim (create_all (a ∷ b ∷ render ∷ []) s h) [
    | none ↦ none
    | some (s1, h1) ↦ elim (start_scheduling s1) [
      | none ↦ none
      | some (cpu, s2) ↦ some (cpu, s2, h1)
    ]
  ]

-- The machine's ports, the registers that Interrupts::init sets, and the interrupt flag.
pub record Board (S : Type 0) : Type 0 where
  pub ports : S
  pub cpu : Cpu
  pub interrupts : Bool

-- What the loader hands over: the memory map, the framebuffers, and what it made of the revision
-- that was asked for.
pub record Boot : Type 0 where
  pub hhdm : ℕ
  pub entries : Option (List Entry)
  pub screens : Option (List Screen)
  pub revision : ℕ

abbrev pub is_supported : Boot → Bool
is_supported boot = boot.revision == 0

-- What kmain leaves to the machine.
pub record Running (S : Type 0) : Type 0 where
  pub board : Board S
  pub drawing : Option Drawing
  pub cpu : Context
  pub sched : Scheduler
  pub heap : Heap (Vmm Pmm)

module _ {S : Type 0} (inb : ℕ → S → ℕ × S) (outb : ℕ → ℕ → S → S) where
  abbrev pub send_all : List Out → S → S
  send_all [] s = s
  send_all (o ∷ os) s = send_all os (outb o.port o.value s)

  module _ (cs : ℕ) (address : Stub → ℕ) (table : ℕ) where
    -- Interrupts::init(), PS2Mouse::init() and sti.
    unfoldable pub start_devices : Board S → Board S
    start_devices b =
        let cpu = Interrupts.init cs address table (record b.cpu { outs = [] }) in
        record {
          ports = init_mouse inb outb (send_all cpu.outs b.ports);
          cpu = cpu;
          interrupts = true;
        }

    module _ (walk fuel : ℕ) where
      -- kmain without its messages. Without a framebuffer it goes on when the next interrupt ends
      -- `hlt`; for a revision that the loader does not have `hlt` does not end, since interrupts
      -- are disabled, and with a wrong font it stays in a loop.
      unfoldable pub kmain :
          Boot
          → (ℕ → ℕ → ℕ)
          → Font
          → ℕ
          → ℕ
          → ℕ
          → Board S
          → Scheduler
          → Heap (Vmm Pmm)
          → Option (Running S)
      kmain boot ram font a b render board s h =
          let printing = record board { ports = serial_init inb outb board.ports } in
          let ready = start_devices printing in
          elim (returned (start_memory boot.hhdm boot.entries ram h)) [
            | none ↦ none
            | some (_, h1) ↦ elim (init_framebuffer (heap_kmalloc walk fuel) boot.screens h1) [
              | none ↦ none
              | some (drawing, h2) ↦
                  let started = start_processes walk fuel cs a b render s h2 in
                  if is_supported boot && init_returns font
                  then Option.map
                      (λ r. record {
                        board = ready;
                        drawing = drawing;
                        cpu = r.0;
                        sched = r.1;
                        heap = r.2;
                      })
                      started
                  else none
            ]
          ]
