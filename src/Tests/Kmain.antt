-- ===== src/Tests/Kmain.antt =====
-- kmain of kernel/main.cpp on the machine of `Boot`.
use issanium.Prelude.{
  ℕ, ◌+◌, ◌*◌, ◌%◌, ◌^◌, ◌<◌, ◌≡◌, refl, arith, false, List, [], ◌∷◌, none, some,
}
use issanium.Pmm.{Pmm}
use issanium.Vmm.{Vmm}
use issanium.Heap.{Heap, done, kmalloc, expand, page_fault, heap_base}
use issanium.Boot.{kernel_paging, start_memory}
use issanium.Process.{Context, Scheduler, new_process}
use issanium.Process.Frame.{fresh}
use issanium.Interrupts.{Stub, interrupt_stub, interrupt_stub_timer, make_gate}
use issanium.Kmain.{kmain, Board, Boot, Running}
use issanium.Framebuffer.{Screen}
use issanium.Writer.{Font}
use issanium.Kmain.Overflow.{kmain_too_large}
use issanium.Kmain.Ready.{IsStarted, beginnings}
use issanium.Kmain.Start.{IsOpen, behind, IsLaunch, kmain-IsStarted}
use issanium.Kmain.Ticks.{machine_of, kmain-resumes}
use issanium.Stubs.Isolation.{Machine, tick, done, more, interrupt}
use issanium.Tests.Boot.{high, regions, machine-IsBoot, no_heap, free_after_init}

abbrev no_process : Scheduler
no_process = record {
  current = 0;
  next_pid = 0;
  timer_ticks = 0;
  procs = λ _. new_process 0 0 0;
  words = λ _. 0;
}

abbrev no_context : ℕ → Context
no_context a = fresh 0 0 0

-- 1024 by 768 pixels.
abbrev screen : Screen
screen = record { address = 0xFD000000; width = 1024; height = 768; pitch = 4096 }

abbrev font : Font
font = record {
  magic = 0x864ab572;
  version = 0;
  flags = 0;
  headersize = 32;
  numglyph = 512;
  bytesperglyph = 16;
  height = 16;
  width = 8;
}

abbrev boot : Boot
boot = record { hhdm = high; entries = some regions; screens = some (screen ∷ []); revision = 0 }

abbrev stub_address : Stub → ℕ
stub_address (interrupt_stub n) = 0xFFFFFFFF80000000 + 16 * (n % 256)
stub_address interrupt_stub_timer = 0xFFFFFFFF80001000

stub_address-lt : (isr : Stub) → stub_address isr < 2 ^ 64
stub_address-lt (interrupt_stub n) = omega arith
stub_address-lt interrupt_stub_timer = omega arith

-- The machine's ports take a log of the writes.
abbrev log_inb : ℕ → List (ℕ × ℕ) → ℕ × List (ℕ × ℕ)
log_inb p s = (1, s)

abbrev log_outb : ℕ → ℕ → List (ℕ × ℕ) → List (ℕ × ℕ)
log_outb p v s = (p, v) ∷ s

abbrev reset : Board (List (ℕ × ℕ))
reset = record {
  ports = [];
  cpu = record {
    apic_low = 0xFEE00900;
    apic_high = 0;
    limit = 0;
    base = 0;
    idt = λ v. make_gate 0 0 0;
    outs = [];
  };
  interrupts = false;
}

boot-IsLaunch : IsLaunch 8 boot regions (λ _ _. 7) screen [] font no_process no_heap
boot-IsLaunch = record {
  enough = omega arith;
  none_yet = refl;
  map = refl;
  screens = refl;
  supported = refl;
  loaded = machine-IsBoot;
  base = refl;
  free = omega (arith, free_after_init);
  fits = omega arith;
  good = refl;
}

run_of_kmain :
    (r : Running (List (ℕ × ℕ))) × (kmain log_inb log_outb 8 stub_address 0x8000 8 1 boot
        (λ _ _. 7)
        font
        100
        200
        300
        reset
        no_process
        no_heap
      ≡ some r)
run_of_kmain =
    let (r, ran, drawing, started, board) =
      kmain-IsStarted log_inb log_outb 8 stub_address 0x8000 stub_address-lt 8 0 100 200 300 boot
        regions (λ _ _. 7) screen [] font reset no_process no_context no_heap boot-IsLaunch in
    (r, ran)

kmain-IsStarted_example :
    (r : Running (List (ℕ × ℕ))) × (kmain log_inb log_outb 8 stub_address 0x8000 8 1 boot
        (λ _ _. 7)
        font
        100
        200
        300
        reset
        no_process
        no_heap
      ≡ some r)
    × (r.drawing ≡ some (screen, heap_base + 32))
    × IsStarted 8 100 200 300 (behind screen) no_process no_context r.cpu r.sched
    × IsOpen 8 stub_address 0x8000 r.board
kmain-IsStarted_example =
    kmain-IsStarted log_inb log_outb 8 stub_address 0x8000 stub_address-lt 8 0 100 200 300 boot
      regions (λ _ _. 7) screen [] font reset no_process no_context no_heap boot-IsLaunch

-- The machine as kmain leaves it, and after one tick.
abbrev launched : Machine
launched = machine_of run_of_kmain.0 (beginnings 8 100 200 300 (behind screen) no_context)

-- What the call of schedule leaves in its room.
abbrev stale : ℕ → ℕ
stale a = 7

abbrev ticked : Machine
ticked = tick stale launched

kmain-resumes_example :
    ((tick stale ticked).sched.current ≡ (ticked.sched.procs ticked.sched.current).next)
    × ((tick stale ticked).cpu ≡ (tick stale ticked).log (tick stale ticked).sched.current)
    × ((tick stale ticked).pic ≡ ticked.pic)
kmain-resumes_example =
    kmain-resumes log_inb log_outb 8 stub_address 0x8000 stub_address-lt 8 0 100 200 300 boot
      regions (λ _ _. 7) screen [] font reset no_process no_context no_heap run_of_kmain.0 ticked
      stale boot-IsLaunch run_of_kmain.1 (more done (interrupt launched stale))

-- 1920 by 1080 pixels need 8294400 bytes.
abbrev large : Screen
large = record { address = 0xFD000000; width = 1920; height = 1080; pitch = 7680 }

abbrev large_boot : Boot
large_boot = record boot { screens = some (large ∷ []) }

kmain_too_large_example :
    (g : Heap (Vmm Pmm)) × (start_memory high (some regions) (λ _ _. 7) no_heap ≡ done tt g)
    × (kmalloc kernel_paging 2 1 8294400 g ≡ page_fault (expand kernel_paging 64 g).heap_end)
    × (kmain log_inb log_outb 8 stub_address 0x8000 2 1 large_boot
          (λ _ _. 7)
          font
          100
          200
          300
          reset
          no_process
          no_heap
        ≡ none)
kmain_too_large_example =
    kmain_too_large log_inb log_outb 8 stub_address 0x8000 2 0 100 200 300 large_boot regions
      (λ _ _. 7) large [] font reset no_process no_heap (omega arith) refl refl machine-IsBoot refl
      (omega (arith, free_after_init)) (omega arith) (omega arith)
