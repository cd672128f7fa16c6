-- ===== src/Tests/Process.antt =====
-- Runs of kernel/process.cpp, and its theorems at concrete inputs.
use issanium.Prelude.{◌≡◌, refl, arith, [], ◌∷◌, ◌==◌, if◌then◌else◌}
use issanium.Process.{ProcessState, Scheduler, new_process, set_up, schedule, save_current, enter}
use issanium.Process.Ring.{IsRing}
use issanium.Process.Turns.{ticks, ticks-round}
use issanium.Process.Runner.{IsScheduled, schedule-IsScheduled, set_up-IsScheduled}

abbrev empty : Scheduler
empty = record {
  current = 0;
  next_pid = 0;
  timer_ticks = 0;
  procs = λ _. new_process 0 0 0;
  words = λ _. 0;
}

-- Processes 16, 32 and 48 in a ring, of which 16 runs.
abbrev three : Scheduler
three = record {
  current = 16;
  next_pid = 3;
  timer_ticks = 0;
  procs = λ a.
      if a == 16
      then record {
        rsp = 100;
        stack = 0;
        cr3 = 0;
        pid = 0;
        state = ProcessState.running;
        next = 32;
      }
      else if a == 32
      then record { rsp = 200; stack = 0; cr3 = 0; pid = 1; state = ProcessState.ready; next = 48 }
      else record { rsp = 300; stack = 0; cr3 = 0; pid = 2; state = ProcessState.ready; next = 16 };
  words = λ _. 0;
}

three-IsRing : IsRing three (16 ∷ 32 ∷ 48 ∷ [])
three-IsRing = record {
  chain = (refl, (refl, (refl, refl)));
  not_null = omega arith;
  distinct = omega arith;
}

three-IsScheduled : IsScheduled three (16 ∷ 32 ∷ 48 ∷ [])
three-IsScheduled = record {
  circular = three-IsRing;
  runner = record { running = refl; ready = (refl, (refl, tt)) };
}

one_tick : (schedule 111 three).0 ≡ 200
unfolding schedule save_current enter
one_tick = refl

ticks-round_example :
    ((ticks (111 ∷ 222 ∷ 333 ∷ []) 0 three).0 ≡ 111)
    × IsRing (ticks (111 ∷ 222 ∷ 333 ∷ []) 0 three).1 (16 ∷ 32 ∷ 48 ∷ [])
ticks-round_example = ticks-round 111 16 (32 ∷ 48 ∷ []) (222 ∷ 333 ∷ []) three three-IsRing refl

schedule-IsScheduled_example : IsScheduled (schedule 111 three).1 (32 ∷ 48 ∷ 16 ∷ [])
schedule-IsScheduled_example = schedule-IsScheduled 111 three 16 (32 ∷ 48 ∷ []) three-IsScheduled

set_up-IsScheduled_example :
    IsScheduled (set_up 8 0x4000 64 0x9000 three) (16 ∷ 64 ∷ 32 ∷ 48 ∷ [])
    × (((set_up 8 0x4000 64 0x9000 three).procs 64).pid ≡ 3)
set_up-IsScheduled_example =
    set_up-IsScheduled 8 0x4000 64 0x9000 three 16 (32 ∷ 48 ∷ []) three-IsScheduled (omega arith)
      (omega arith)
