-- ===== src/Keyboard/Keys.antt =====
-- Which scancodes change the last key of drivers/ps2keyboard.cpp, and to what.
use issanium.Prelude.{
  ℕ, ◌<◌, ◌≡◌, ◌≢◌, refl, Bool, true, false, not, ◌&&◌, ◌||◌, arith, ◌==◌, ==_iff, if◌then◌else◌,
  ltb, leb, get_or, bit_and, inl, inr, Bool-cases, ltb→lt, List, [], ◌∷◌,
}
use issanium.Prelude.Table.{all_below, all_below_sound}
use issanium.Keyboard.{Keyboard, scancode_map, handle}

-- The key of a scancode, 0 for none.
abbrev pub key_of : ℕ → ℕ
key_of c = get_or scancode_map c 0

-- The scancode is the press of a key that the map knows.
abbrev pub is_key : ℕ → Bool
is_key c = ltb c 0x80 && not (key_of c == 0)

-- The two tests of `handle` reject exactly what is not below 0x60.
abbrev tests_agree : ℕ → Bool
tests_agree c =
    if ltb c 0x60
    then bit_and c 0x80 == 0
    else (not (bit_and c 0x80 == 0) || leb 0x60 c) && not (is_key c)

tests_table : all_below 256 tests_agree ≡ true
unfolding all_below
tests_table = refl

-- A press of a known key records the key and the scancode and raises `pressed`; any other byte (a
-- release, or a code with no key) records the scancode alone.
handle-key :
    (c : ℕ) (s : Keyboard)
    → c < 256
    → handle c s ≡ (
        if is_key c
        then record { pressed = true; last_key = key_of c; last_scancode = c }
        else record s { last_scancode = c })
unfolding handle
handle-key c s h = ground (arith, all_below_sound 256 tests_agree c tests_table h)

-- The two scancodes are not two keys with one character.
abbrev differ_or_same : ℕ → ℕ → Bool
differ_or_same c d = not (is_key c && is_key d && (key_of c == key_of d)) || c == d

differ_table : all_below 96 (λ c. all_below 96 (differ_or_same c)) ≡ true
unfolding all_below
differ_table = refl

is_key-lt : (c : ℕ) → is_key c ≡ true → c < 96
is_key-lt c h = elim (Bool-cases (ltb c 128)) [
  | inl low ↦ ground (arith, all_below_sound 128 below_96 c below_table (ltb→lt c 128 low), h)
  | inr high ↦ ground (arith, h, high)
]
  where
    below_96 : ℕ → Bool
    below_96 c = not (is_key c) || ltb c 96

    below_table : all_below 128 below_96 ≡ true
    below_table = unfold all_below in refl

same_of_clash :
    (a b k : Bool) (c d : ℕ)
    → (not (a && b && k) || c == d) ≡ true
    → a ≡ true
    → b ≡ true
    → k ≡ true
    → c ≡ d
same_of_clash a b k c d h ha hb hk = ground arith

-- No two keys of the map give the same character.
key_of_injective : (c d : ℕ) → is_key c ≡ true → is_key d ≡ true → key_of c ≡ key_of d → c ≡ d
key_of_injective c d hc hd e =
    same_of_clash (is_key c) (is_key d) (key_of c == key_of d) c d
      (all_below_sound 96 (differ_or_same c) d
        (all_below_sound 96 (λ c. all_below 96 (differ_or_same c)) c differ_table (is_key-lt c hc))
        (is_key-lt d hd))
      hc hd ((==_iff (key_of c) (key_of d)).1 e)

-- Whatever bytes arrive, and whenever the main loop clears `pressed`.
pub data Event : Type 0 where
  byte : (c : ℕ) → c < 256 → Event
  poll : Event

abbrev pub step : Event → Keyboard → Keyboard
step (byte c h) s = handle c s
step poll s = record s { pressed = false }

abbrev pub run : List Event → Keyboard → Keyboard
run [] s = s
run (e ∷ es) s = run es (step e s)

-- `pressed` is raised only for a character.
abbrev pub HasKey : Keyboard → Type 0
HasKey s = s.pressed ≡ true → s.last_key ≢ 0

step-HasKey : (e : Event) (s : Keyboard) → HasKey s → HasKey (step e s)
step-HasKey (byte c h) s v = ground (arith, handle-key c s h, v)
step-HasKey poll s v = λ p. cc

-- In every run, a poll that finds `pressed` finds a character that is not NUL.
pub run-HasKey : (es : List Event) (s : Keyboard) → HasKey s → HasKey (run es s)
run-HasKey [] s v = v
run-HasKey (e ∷ es) s v = run-HasKey es (step e s) (step-HasKey e s v)
