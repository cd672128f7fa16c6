-- ===== src/Keyboard.antt =====
-- drivers/ps2keyboard.cpp: what a scancode does to the last key.
pub mod Keys
use issanium.Prelude.{
  ℕ, Bool, true, false, not, ltb, leb, if◌then◌else◌, bit_and, List, [], ◌∷◌, get_or, ◌==◌,
}
use issanium.Prelude.Word.{is_true}

pub record Keyboard : Type 0 where
  pub pressed : Bool
  pub last_key : ℕ
  pub last_scancode : ℕ

-- US QWERTY; the entries that the source leaves out are 0.
abbrev pub scancode_map : List ℕ
scancode_map =
    0 ∷ 27 ∷ b'1' ∷ b'2' ∷ b'3' ∷ b'4' ∷ b'5' ∷ b'6' ∷ b'7' ∷ b'8' ∷ b'9' ∷ b'0' ∷ b'-' ∷ b'=' ∷ 8
    ∷ 9 ∷ b'q' ∷ b'w' ∷ b'e' ∷ b'r' ∷ b't' ∷ b'y' ∷ b'u' ∷ b'i' ∷ b'o' ∷ b'p' ∷ 0x5b ∷ 0x5d ∷ 10 ∷ 0
    ∷ b'a' ∷ b's' ∷ b'd' ∷ b'f' ∷ b'g' ∷ b'h' ∷ b'j' ∷ b'k' ∷ b'l' ∷ 0x3b ∷ 0x27 ∷ 0x60 ∷ 0 ∷ 0x5c
    ∷ b'z' ∷ b'x' ∷ b'c' ∷ b'v' ∷ b'b' ∷ b'n' ∷ b'm' ∷ 0x2c ∷ 0x2e ∷ b'/' ∷ 0 ∷ b'*' ∷ 0 ∷ 32 ∷ []

unfoldable pub handle : ℕ → Keyboard → Keyboard
handle scancode s =
    let seen = record s { last_scancode = scancode } in
    let key = get_or scancode_map scancode 0 in
    if is_true (bit_and scancode 0x80)
    then seen
    else if leb 0x60 scancode
    then seen
    else if is_true key
    then record seen { last_key = key; pressed = true }
    else seen
