-- ===== src/Kmain/Start.antt =====
-- kernel/main.cpp: kmain on what the loader hands over.
use issanium.Prelude.{
  ℕ, suc, ◌+◌, ◌-◌, ◌*◌, ◌^◌, ◌≤◌, ◌<◌, ◌≡◌, refl, ap, ◌∙◌, arith, ltb, true, if◌then◌else◌, List,
  [], ◌∷◌, none, some,
}
use issanium.Prelude.Word.{u64}
use issanium.Pmm.{Pmm}
use issanium.Pmm.Init.{Entry, init}
use issanium.Vmm.{Vmm}
use issanium.Heap.{Heap, heap_base, initial_pages}
use issanium.Heap.State.{rounded}
use issanium.Boot.Memory.{IsBoot, start_memory-IsHeap}
use issanium.Framebuffer.{Screen, init_framebuffer}
use issanium.Writer.{Font, init_returns}
use issanium.Process.{Context, Scheduler}
use issanium.Interrupts.{Stub}
use issanium.Interrupts.Gates.{stub_for}
use issanium.Interrupts.Setup.{deliver, target, masks, init-IsInstalled}
use issanium.Serial.{serial_init}
use issanium.Kmain.{heap_kmalloc, kmain, Board, Boot, Running, is_supported, start_devices}
use issanium.Kmain.Blocks.{extent, heap_kmalloc-TakesNext}
use issanium.Kmain.Ready.{IsStarted, start_processes-IsStarted}

-- The bytes of the back buffer.
abbrev pub buffer_bytes : Screen → ℕ
buffer_bytes fb = fb.height * fb.pitch

-- Where the first process lies, behind a back buffer at the heap's start.
abbrev pub behind : Screen → ℕ
behind fb = heap_base + extent (rounded (buffer_bytes fb) ∷ []) + 32

-- What kmain starts from: enough fuel for the walks along the list of chunks, no process yet, what
-- the loader hands over for the revision that was asked for, 4098 pages free after PMM::init, a
-- back buffer that leaves room for the processes, and a font of PSF2.
pub record IsLaunch (walk : ℕ) (boot : Boot) (es : List Entry) (ram : ℕ → ℕ → ℕ) (fb : Screen)
    (others : List Screen) (font : Font) (s : Scheduler) (h : Heap (Vmm Pmm)) : Type 0 where
  pub enough : 7 < walk
  pub none_yet : s.current ≡ 0
  pub map : boot.entries ≡ some es
  pub screens : boot.screens ≡ some (fb ∷ others)
  pub supported : is_supported boot ≡ true
  pub loaded : IsBoot boot.hhdm es h.paging
  pub base : h.heap_end ≡ heap_base
  pub free : initial_pages * 4 + 2 ≤ (init boot.hhdm (some es) ram h.paging.pmm).free_pages
  pub fits : buffer_bytes fb ≤ 4144736
  pub good : init_returns font ≡ true

-- The vectors reach their stubs, the four lines are let through, and interrupts are enabled.
pub record IsOpen {S : Type 0} (cs : ℕ) (address : Stub → ℕ) (table : ℕ) (b : Board S)
    : Type 0 where
  pub vectors :
      (v : ℕ)
      → target (deliver table b.cpu v)
        ≡ (if ltb v 256 then some (cs, address (stub_for v), 0x8E) else none)
  pub unmasked : masks b.cpu.outs ≡ (0xF8, 0xEF)
  pub interrupts : b.interrupts ≡ true

module _ {S : Type 0} (inb : ℕ → S → ℕ × S) (outb : ℕ → ℕ → S → S) (cs : ℕ) (address : Stub → ℕ)
    (table : ℕ) (bound : (isr : Stub) → address isr < 2 ^ 64) where
  start_devices-IsOpen :
      (b : Board S) → IsOpen cs address table (start_devices inb outb cs address table b)
  unfolding start_devices
  start_devices-IsOpen b =
      let x = init-IsInstalled cs address table (record b.cpu { outs = [] }) bound in
      record { vectors = x.vectors; unmasked = x.unmasked; interrupts = refl }

  -- On what the loader hands over (usable regions of whole pages that do not overlap, end below
  -- 2 ^ 46 and leave out page 0, one of them with room for the bitmap; a direct map of that size
  -- that does not wrap; a first table that is a page of it and not in usable memory; no bitmap
  -- and no count of free pages yet), of the revision that was asked for, with a framebuffer of
  -- at most 4144736 bytes, a font of PSF2, the heap's end at its base, no process yet and 4098
  -- pages free after PMM::init, and without a timer interrupt before the first process runs:
  -- kmain sets up the memory, the back buffer and its three processes, and starts the first one
  -- at its entry, with interrupts enabled and its own empty stack. The other two wait at theirs,
  -- no two of the stacks meet, every vector goes to its stub, and the lines of the timer, the
  -- keyboard and the mouse are let through.
  pub kmain-IsStarted :
      (walk fuel a b c : ℕ) (boot : Boot) (es : List Entry) (ram : ℕ → ℕ → ℕ) (fb : Screen)
      (others : List Screen) (font : Font) (board : Board S) (s : Scheduler) (log : ℕ → Context)
      (h : Heap (Vmm Pmm))
      → IsLaunch walk boot es ram fb others font s h
      → (r : Running S) × (kmain inb outb cs address table walk
            (suc fuel)
            boot
            ram
            font
            a
            b
            c
            board
            s
            h
          ≡ some r)
        × (r.drawing ≡ some (fb, heap_base + 32))
        × IsStarted cs a b c (behind fb) s log r.cpu r.sched
        × IsOpen cs address table r.board
  unfolding kmain init_framebuffer
  kmain-IsStarted walk fuel a b c boot es ram fb others font board s log h l =
      let bytes = buffer_bytes fb in
      let (h1, (ran, (heap, (tree, (start, free_from))))) =
        start_memory-IsHeap boot.hhdm es ram h l.loaded l.base l.free in
      let size : u64 bytes ≡ bytes = omega (arith, l.fits) in
      let (h2, taken, v) =
        heap_kmalloc-TakesNext walk fuel bytes h1 heap_base [] (initial_pages * 4096 - 32)
          (heap, start) (omega (arith, l.enough)) (omega (arith, l.fits)) (omega (arith, l.fits)) in
      let drawn : heap_kmalloc walk (suc fuel) (u64 bytes) h1 ≡ some (heap_base + 32, h2) =
        ap (λ n. heap_kmalloc walk (suc fuel) n h1) size ∙ taken in
      let (cpu, t, g, run, started) =
        start_processes-IsStarted walk fuel cs a b c heap_base
          (initial_pages * 4096 - 32 - rounded bytes - 32) (rounded bytes ∷ []) s log h2
          (omega (arith, l.enough)) l.none_yet (omega (arith, l.fits)) v in
      let printing = record board { ports = serial_init inb outb board.ports } in
      (
        record {
          board = start_devices inb outb cs address table printing;
          drawing = some (fb, heap_base + 32);
          cpu = cpu;
          sched = t;
          heap = g;
        },
        rw (l.map, l.screens) (rw (ran, kmain) (rw drawn (rw (run, l.supported, l.good) refl))),
        refl,
        started,
        start_devices-IsOpen printing,
      )
