-- ===== src/Stubs/Idle.antt =====
-- kernel/interrupt_stub.asm: the ticks that come before the first process, while kmain runs.
use issanium.Prelude.{
  inr, ℕ, ◌+◌, ◌*◌, ◌/◌, ◌≤◌, ◌<◌, ◌≡◌, ap, sym, ◌∙◌, arith, ◌⊎◌, length, ==_iff,
}
use issanium.Prelude.Word.{u32}
use issanium.Process.{Context, Scheduler, load_context, schedule}
use issanium.Stubs.{save_context, call_room, call_frames, stub_timer}
use issanium.Stubs.Saved.{save_context-IsSaved, saved-size, load_context-saved}

-- With no process, schedule counts the tick and stays on the stack.
schedule-idle :
    (rsp : ℕ) (s : Scheduler)
    → s.current ≡ 0
    → schedule rsp s ≡ (rsp, record s { timer_ticks = u32 (s.timer_ticks + 1) })
unfolding schedule
schedule-idle rsp s e = simp ((==_iff s.current 0).1 e)

-- A tick that comes before the first create_process, with all registers and 1200 bytes below the
-- stack pointer of what it interrupts: the stub resumes that with the same registers and stack
-- pointer, counts the tick, and changes nothing else of the scheduler but at most 1199 bytes right
-- below the stack pointer.
stub_timer-idle :
    (below : ℕ → ℕ) (c : Context) (s : Scheduler)
    → length c.registers ≡ 15
    → 176 + call_room ≤ c.rsp
    → s.current ≡ 0
    → let t = (stub_timer below c s).1 in
      ((stub_timer below c s).0 ≡ c)
      × (t ≡ record s { timer_ticks = u32 (s.timer_ticks + 1); words = t.words })
      × ((a : ℕ) → (a + 1200 ≤ c.rsp) ⊎ (c.rsp ≤ a) → t.words a ≡ s.words a)
unfolding stub_timer call_frames
stub_timer-idle below c s full room e =
    let saved = save_context-IsSaved c full s.words (omega (arith, room)) in
    let r = save_context c s.words in
    let called = call_frames below r in
    let idle = schedule-idle r.0 (record s { words = called }) e in
    let idled : (ℕ → ℕ) → Scheduler =
      (λ words. record s { timer_ticks = u32 (s.timer_ticks + 1); words = words }) in
    let after : (schedule r.0 (record s { words = called })).1 ≡ idled called =
      ap (λ u. u.1) idle in
    let size = saved-size c full (c.rsp / 16 * 16) s.words r saved in
    let outside : (a : ℕ) → (a + call_room < r.0) ⊎ (r.0 ≤ a) → called a ≡ r.1 a =
      (λ a p. ground (arith, p)) in
    (
      ap (λ u. load_context u.0 u.1.words) idle
          ∙ load_context-saved c full (c.rsp / 16 * 16) s.words r saved called
              (λ a lo hi. outside a (inr lo)),
      after ∙ sym (ap (λ (u : Scheduler). idled u.words) after),
      λ a p.
          ap (λ u. u.1.words a) idle
          ∙ outside a (omega (arith, size, p))
          ∙ saved.outside a (omega (arith, size, p)),
    )
