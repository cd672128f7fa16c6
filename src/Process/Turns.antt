-- ===== src/Process/Turns.antt =====
-- Round robin in kernel/process.cpp: each process is resumed where it was interrupted, once in a
-- round, and exactly one runs at a time.
use mathlib.Core.Path.{subst}
use mathlib.Core.List.{append_assoc, append-nil}
use issanium.Prelude.{ℕ, ◌≡◌, ◌≢◌, ap, sym, ◌∙◌, arith, List, [], ◌∷◌, ◌++◌, length}
use issanium.Process.{Scheduler, schedule}
use issanium.Process.Ring.{AllNe, IsRing, schedule-IsRing, ring_switch}

-- A tick for each interrupted stack pointer in turn: what the last one returns.
abbrev pub ticks : List ℕ → ℕ → Scheduler → ℕ × Scheduler
ticks [] d s = (d, s)
ticks (r ∷ rs) d s = ticks rs (schedule r s).0 (schedule r s).1

AllNe-middle : (a c : ℕ) (xs ys : List ℕ) → AllNe a (xs ++ c ∷ ys) → a ≢ c
AllNe-middle a c [] ys h = h.0
AllNe-middle a c (x ∷ xs) ys h = AllNe-middle a c xs ys h.1

module _ (c saved : ℕ) where
  comes_round :
      (xs ys rs : List ℕ) (d : ℕ) (s : Scheduler)
      → IsRing s (xs ++ c ∷ ys)
      → length rs ≡ length xs
      → d ≡ (s.procs s.current).rsp
      → (s.procs c).rsp ≡ saved
      → ((ticks rs d s).0 ≡ saved) × IsRing (ticks rs d s).1 (c ∷ ys ++ xs)
  comes_round [] ys [] d s ring len e h = (
    e ∙ ap (λ p. (s.procs p).rsp) ring.chain.0 ∙ h,
    subst (λ zs. IsRing s (c ∷ zs)) (sym (append-nil ys)) ring,
  )
  comes_round [] ys (r ∷ rs) d s ring len e h = absurd (omega arith)
  comes_round (x ∷ xs) ys [] d s ring len e h = absurd (omega arith)
  comes_round (x ∷ xs) ys (r ∷ rs) d s ring len e h =
      let sw = ring_switch r s x (xs ++ c ∷ ys) ring in
      let other : s.current ≢ c =
        λ z. AllNe-middle x c xs ys ring.distinct.0 (sym ring.chain.0 ∙ z) in
      let unsaved : ((schedule r s).1.procs c).rsp ≡ saved = ground (arith, sw.saved c, h, other) in
      let turned =
        subst (λ zs. IsRing (schedule r s).1 zs) (append_assoc xs (c ∷ ys) (x ∷ []))
          (schedule-IsRing r s x (xs ++ c ∷ ys) ring) in
      let rest =
        comes_round xs (ys ++ x ∷ []) rs (schedule r s).0 (schedule r s).1 turned (omega arith)
          sw.returned unsaved in
      (
        rest.0,
        subst (λ zs. IsRing (ticks rs (schedule r s).0 (schedule r s).1).1 (c ∷ zs))
            (append_assoc ys (x ∷ []) xs) rest.1,
      )

-- A process that a tick interrupts at `rsp` is resumed at `rsp` when the ring has gone round: as
-- many ticks as there are processes return to it, and the ring stands as before.
pub ticks-round :
    (rsp c : ℕ) (xs rs : List ℕ) (s : Scheduler)
    → IsRing s (c ∷ xs)
    → length rs ≡ length xs
    → ((ticks (rsp ∷ rs) 0 s).0 ≡ rsp) × IsRing (ticks (rsp ∷ rs) 0 s).1 (c ∷ xs)
ticks-round rsp c xs rs s ring len =
    let sw = ring_switch rsp s c xs ring in
    let here : ((schedule rsp s).1.procs c).rsp ≡ rsp = ground (arith, sw.saved c, ring.chain.0) in
    comes_round c rsp xs [] rs (schedule rsp s).0 (schedule rsp s).1
      (schedule-IsRing rsp s c xs ring) len sw.returned here
