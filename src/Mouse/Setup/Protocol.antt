-- ===== src/Mouse/Setup/Protocol.antt =====
-- drivers/ps2mouse.cpp: the port writes of `init`, however the controller answers.
use issanium.Prelude.{
  ℕ, zero, suc, ◌-◌, ◌^◌, ◌<◌, ◌≡◌, refl, ap, ◌∙◌, arith, if◌then◌else◌, ◌==◌, bit_and, bit_or,
  List, [], ◌∷◌, ◌++◌, append_assoc, Bool-cases, inl, inr,
}
use issanium.Prelude.Word.{is_true}
use issanium.Prelude.Bits.{
  bit_at, bit_at-bit_and, bit_at-bit_or, bit_at-pow, bit_at-complement, bit_at-lt,
}
use issanium.Mouse.Setup.{
  timeout, configured, poll_write, poll_read, write_cmd, write_data, read_data, mouse_cmd,
  enable_irq, init_mouse,
}

-- Ports that keep what is written, in order: reads leave it as it is.
pub record IsLogged {S : Type 0} (inb : ℕ → S → ℕ × S) (outb : ℕ → ℕ → S → S)
    (written : S → List (ℕ × ℕ)) : Type 0 where
  pub written-inb : (p : ℕ) (s : S) → written (inb p s).1 ≡ written s
  pub written-outb : (p v : ℕ) (s : S) → written (outb p v s) ≡ written s ++ ((p, v) ∷ [])

module _ {S : Type 0} (inb : ℕ → S → ℕ × S) (outb : ℕ → ℕ → S → S) (written : S → List (ℕ × ℕ))
    (ports : IsLogged inb outb written) where
  poll_write-written : (left : ℕ) (s : S) → written (poll_write inb outb left s) ≡ written s
  unfolding poll_write
  poll_write-written zero s = refl
  poll_write-written (suc left) s = elim (Bool-cases (is_true (bit_and (inb 0x64 s).0 2))) [
    | inl full ↦ rw full (poll_write-written left (inb 0x64 s).1 ∙ ports.written-inb 0x64 s)
    | inr free ↦ rw free (ports.written-inb 0x64 s)
  ]

  poll_read-written : (left : ℕ) (s : S) → written (poll_read inb outb left s) ≡ written s
  unfolding poll_read
  poll_read-written zero s = refl
  poll_read-written (suc left) s = elim (Bool-cases (is_true (bit_and (inb 0x64 s).0 1))) [
    | inl full ↦ rw full (ports.written-inb 0x64 s)
    | inr empty ↦ rw empty (poll_read-written left (inb 0x64 s).1 ∙ ports.written-inb 0x64 s)
  ]

  -- `after` is `s` with `log` written behind what was.
  abbrev Writes : List (ℕ × ℕ) → S → S → Type 0
  Writes log s after = written after ≡ written s ++ log

  write_cmd-Writes : (cmd : ℕ) (s : S) → Writes ((0x64, cmd) ∷ []) s (write_cmd inb outb cmd s)
  unfolding write_cmd
  write_cmd-Writes cmd s =
      ports.written-outb 0x64 cmd _
      ∙ ap (λ l. l ++ ((0x64, cmd) ∷ [])) (poll_write-written timeout s)

  write_data-Writes : (v : ℕ) (s : S) → Writes ((0x60, v) ∷ []) s (write_data inb outb v s)
  unfolding write_data
  write_data-Writes v s =
      ports.written-outb 0x60 v _ ∙ ap (λ l. l ++ ((0x60, v) ∷ [])) (poll_write-written timeout s)

  read_data-written : (s : S) → written (read_data inb outb s).1 ≡ written s
  unfolding read_data
  read_data-written s = ports.written-inb 0x60 _ ∙ poll_read-written timeout s

  then-Writes :
      (s t u : S) (first second : List (ℕ × ℕ))
      → Writes first s t
      → Writes second t u
      → Writes (first ++ second) s u
  then-Writes s t u first second p q =
      q ∙ ap (λ l. l ++ second) p ∙ append_assoc (written s) first second

  mouse_cmd-Writes :
      (cmd : ℕ) (s : S) → Writes ((0x64, 0xD4) ∷ (0x60, cmd) ∷ []) s (mouse_cmd inb outb cmd s)
  unfolding mouse_cmd
  mouse_cmd-Writes cmd s =
      read_data-written _
      ∙ then-Writes s _ _ ((0x64, 0xD4) ∷ []) ((0x60, cmd) ∷ []) (write_cmd-Writes 0xD4 s)
          (write_data-Writes cmd _)

  -- The byte that `enable_irq` reads as the configuration.
  abbrev pub read_cfg : S → ℕ
  read_cfg s = (read_data inb outb (write_cmd inb outb 0x20 s)).0

  enable_irq-Writes :
      (s : S)
      → Writes
          ((0x64, 0x20) ∷ (0x64, 0x60) ∷ (0x60, configured (read_cfg s)) ∷ [])
          s
          (enable_irq inb outb s)
  unfolding enable_irq
  enable_irq-Writes s =
      then-Writes s _ _ ((0x64, 0x20) ∷ []) ((0x64, 0x60) ∷ (0x60, configured (read_cfg s)) ∷ [])
        (read_data-written _ ∙ write_cmd-Writes 0x20 s)
        (then-Writes _ _ _ ((0x64, 0x60) ∷ []) ((0x60, configured (read_cfg s)) ∷ [])
          (write_cmd-Writes 0x60 _) (write_data-Writes (configured (read_cfg s)) _))

-- Bit 1, the mouse's interrupt, is set, bit 5, that the mouse is off, is clear, and the others stay.
configured-bit_at :
    (cfg k : ℕ)
    → k < 8
    → bit_at (configured cfg) k ≡ (if k == 1 then 1 else if k == 5 then 0 else bit_at cfg k)
unfolding configured
configured-bit_at cfg k h = ground (
  arith,
  bit_at-bit_and (bit_or cfg 0x02) (2 ^ 8 - 1 - 2 ^ 5) k,
  bit_at-bit_or cfg (2 ^ 1) k,
  bit_at-pow 1 k,
  bit_at-pow 5 k,
  bit_at-complement 8 (2 ^ 5) k (omega arith) h,
  bit_at-lt cfg k,
)

module _ {S : Type 0} (inb : ℕ → S → ℕ × S) (outb : ℕ → ℕ → S → S) (written : S → List (ℕ × ℕ))
    (ports : IsLogged inb outb written) where
  -- The machine when `init` reads the configuration: behind the poll that waits for it.
  abbrev pub answering : S → S
  answering s = poll_read inb outb timeout (write_cmd inb outb 0x20 (write_cmd inb outb 0xA8 s))

  -- The mouse's init ends however the controller answers, by its timeouts. It has written the
  -- commands that enable the mouse and ask for the configuration when it reads port 0x60; its
  -- writes are these eight, in order: enable the mouse, ask, write back the byte that was read with
  -- the interrupt on and the mouse on and its other bits as they were, set the mouse's defaults and
  -- let it report.
  pub init_mouse-Writes :
      (s : S)
      → let cfg = (inb 0x60 (answering s)).0 in
        (written (answering s) ≡ written s ++ ((0x64, 0xA8) ∷ (0x64, 0x20) ∷ []))
        × (written (init_mouse inb outb s)
            ≡ written s
              ++ ((0x64, 0xA8)
                  ∷ (0x64, 0x20)
                  ∷ (0x64, 0x60)
                  ∷ (0x60, configured cfg)
                  ∷ (0x64, 0xD4)
                  ∷ (0x60, 0xF6)
                  ∷ (0x64, 0xD4)
                  ∷ (0x60, 0xF4)
                  ∷ []))
        × ((k : ℕ)
            → k < 8
            → bit_at (configured cfg) k
              ≡ (if k == 1 then 1 else if k == 5 then 0 else bit_at cfg k))
  unfolding init_mouse read_data
  init_mouse-Writes s = (
    asked,
    then-Writes inb outb written ports s _ _ ((0x64, 0xA8) ∷ []) (irq ++ (defaults ++ reporting))
        (write_cmd-Writes inb outb written ports 0xA8 s)
        (then-Writes inb outb written ports _ _ _ irq (defaults ++ reporting)
          (enable_irq-Writes inb outb written ports _)
          (then-Writes inb outb written ports _ _ _ defaults reporting
            (mouse_cmd-Writes inb outb written ports 0xF6 _)
            (mouse_cmd-Writes inb outb written ports 0xF4 _))),
    λ k h. configured-bit_at cfg k h,
  )
    where
      cfg : ℕ
      cfg = read_cfg inb outb written ports (write_cmd inb outb 0xA8 s)

      asked : written (answering s) ≡ written s ++ ((0x64, 0xA8) ∷ (0x64, 0x20) ∷ [])
      asked =
          poll_read-written inb outb written ports timeout _
          ∙ then-Writes inb outb written ports s _ _ ((0x64, 0xA8) ∷ []) ((0x64, 0x20) ∷ [])
              (write_cmd-Writes inb outb written ports 0xA8 s)
              (write_cmd-Writes inb outb written ports 0x20 _)

      irq : List (ℕ × ℕ)
      irq = (0x64, 0x20) ∷ (0x64, 0x60) ∷ (0x60, configured cfg) ∷ []

      defaults : List (ℕ × ℕ)
      defaults = (0x64, 0xD4) ∷ (0x60, 0xF6) ∷ []

      reporting : List (ℕ × ℕ)
      reporting = (0x64, 0xD4) ∷ (0x60, 0xF4) ∷ []
