-- ===== src/Stubs/Faults.antt =====
-- kernel/interrupt_stub.asm: what the two kinds of stub pass on and what they resume.
use issanium.Prelude.{
  ℕ, ◌+◌, ◌-◌, ◌*◌, ◌/◌, ◌≤◌, ◌<◌, ◌≡◌, refl, ◌∙◌, arith, ◌⊎◌, inl, inr, Bool-cases, if◌then◌else◌,
  length, set, get_or, length-append, length-set, get_or-left, get_or-set_ne,
}
use issanium.Prelude.Memory.{write, write_self, write_ne}
use issanium.Process.{Context, load_context}
use issanium.Stubs.{
  enter_gate, push_registers, has_error_code, Call, isr_noerr, isr_err, run_stub, at_rsi, at_r8,
}
use issanium.Stubs.Saved.{
  IsSaved, gate_words, context_words, enter_gate-IsSaved, push_registers-IsSaved,
  save_context-IsSaved, saved-size, load_context-saved,
}

-- The context that a stub goes back to: one with an error code leaves the code in rsi.
abbrev pub resumed : ℕ → ℕ → Context → Context
resumed n error_code c =
    if has_error_code n then record c { registers = set c.registers at_rsi error_code } else c

-- The second argument of the handler: one with an error code passes the interrupted r8.
abbrev pub passed : ℕ → Context → ℕ
passed n c = if has_error_code n then get_or c.registers at_r8 0 else 0

-- A stub calls the handler with its vector, on the frame below the interrupted stack pointer, and
-- writes nothing else; with the memory `later` that the handler leaves, it goes back to `back`.
pub record Calls (n error_code : ℕ) (back c : Context) (m later : ℕ → ℕ) (r : Call) : Type 0 where
  pub vector : r.vector ≡ n
  pub code : r.error_code ≡ error_code
  pub frame : r.top + 160 ≡ c.rsp / 16 * 16
  pub outside : (a : ℕ) → (a < r.top) ⊎ (c.rsp / 16 * 16 ≤ a) → r.words a ≡ m a
  pub back_to : load_context r.top later ≡ back

-- The handler leaves the frame of the stub as it is.
abbrev pub KeepsFrame : Call → (ℕ → ℕ) → Type 0
KeepsFrame r later = (a : ℕ) → r.top ≤ a → a < r.top + 160 → later a ≡ r.words a

module _ (n error_code : ℕ) (c : Context) (m later : ℕ → ℕ) (full : length c.registers ≡ 15)
    (room : 176 ≤ c.rsp) where
  isr_noerr-Calls : KeepsFrame (isr_noerr n c m) later → Calls n 0 c c m later (isr_noerr n c m)
  unfolding isr_noerr
  isr_noerr-Calls kept =
      let saved = save_context-IsSaved c full m room in
      record {
        vector = refl;
        code = refl;
        frame = saved-size c full _ m _ saved;
        outside = saved.outside;
        back_to = load_context-saved c full _ m _ saved later kept;
      }

  abbrev reached : Context
  reached = record c { registers = set c.registers at_rsi error_code }

  reached-full : length reached.registers ≡ 15
  reached-full = length-set c.registers at_rsi error_code ∙ full

  -- The frame of the gate stays when the code is pushed below it.
  gate_with_code :
      (e : ℕ × (ℕ → ℕ))
      → IsSaved (gate_words c) (c.rsp / 16 * 16) m e
      → IsSaved
          (gate_words c)
          (c.rsp / 16 * 16)
          (write m (e.0 - 8) error_code)
          (e.0, write e.1 (e.0 - 8) error_code)
  gate_with_code e saved = record {
    pointer = saved.pointer;
    value = λ i h. write_ne e.1 error_code (omega (arith, saved.pointer, room)) ∙ saved.value i h;
    outside = λ a p. ground (arith, saved.outside a p);
  }

  abbrev with_code : ℕ × (ℕ → ℕ)
  with_code =
      push_registers reached.registers
        ((enter_gate c m).0, write (enter_gate c m).1 ((enter_gate c m).0 - 8) error_code)

  with_code-IsSaved :
      IsSaved
        (context_words reached)
        (c.rsp / 16 * 16)
        (write m ((enter_gate c m).0 - 8) error_code)
        with_code
  with_code-IsSaved =
      push_registers-IsSaved reached reached-full _ (c.rsp / 16 * 16) _ (omega (arith, room))
        (gate_with_code (enter_gate c m) (enter_gate-IsSaved c full m (omega (arith, room))))

  interrupted_r8 : with_code.1 (with_code.0 + 8 * 7) ≡ get_or c.registers at_r8 0
  interrupted_r8 =
      with_code-IsSaved.value 7
        (omega (arith, length-append reached.registers (gate_words reached), reached-full))
      ∙ (get_or-left reached.registers (gate_words reached) 7 0 (omega (arith, reached-full))
          ∙ get_or-set_ne c.registers error_code 0 (omega arith))

  isr_err-Calls :
      KeepsFrame (isr_err n error_code c m) later
      → Calls n (get_or c.registers at_r8 0) reached c m later (isr_err n error_code c m)
  unfolding isr_err
  isr_err-Calls kept =
      let own = write_self (enter_gate c m).1 ((enter_gate c m).0 - 8) error_code in
      let same = rw own at kept in
      let gate = enter_gate-IsSaved c full m (omega (arith, room)) in
      let saved = with_code-IsSaved in
      let size = saved-size reached reached-full _ _ _ saved in
      rw own (record {
        vector = refl;
        code = interrupted_r8;
        frame = size;
        outside = λ a p.
            saved.outside a p ∙ write_ne m error_code (omega (arith, gate.pointer, size, p, room));
        back_to = load_context-saved reached reached-full _ _ _ saved later same;
      })

  -- The stub of vector `n`, on a full set of registers and with 176 bytes below the stack pointer:
  -- it calls the handler with `n`, writes only its frame, and when the handler has kept that frame,
  -- goes back to what was interrupted with all its registers. A stub with an error code leaves the
  -- code in rsi, and the second argument that it passes is r8, not the code.
  pub run_stub-Calls :
      KeepsFrame (run_stub n error_code c m) later
      → Calls n (passed n c) (resumed n error_code c) c m later (run_stub n error_code c m)
  unfolding run_stub
  run_stub-Calls kept = elim (Bool-cases (has_error_code n)) [
    | inl e ↦ rw e (isr_err-Calls (rw e at kept))
    | inr e ↦ rw e (isr_noerr-Calls (rw e at kept))
  ]
