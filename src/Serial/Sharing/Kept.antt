-- ===== src/Serial/Sharing/Kept.antt =====
-- drivers/serial.cpp: with a FIFO as long as there are processes, no byte is lost.
use issanium.Prelude.{
  ℕ, zero, suc, ◌+◌, ◌≤◌, ◌<◌, ◌≡◌, ◌≢◌, refl, ap, sym, ◌∙◌, arith, Bool, true, false, not, ◌==◌,
  List, [], ◌∷◌, ◌++◌, map, bit_and, inl, inr, Bool-cases, append-nil, append_assoc, ==_iff,
  if◌then◌else◌,
}
use issanium.Prelude.Memory.{write, write_self}
use issanium.Serial.{com1}
use issanium.Serial.Sharing.{
  Party, System, poll_once, put_next, act, call_print, Step, run, begin, pass, Reach, here, next,
}

-- What the code relies on of a chip whose transmitter has a FIFO of `size` bytes: `room` bounds
-- from below the bytes it takes before one is lost, and when it reports that its transmitter is
-- empty there is room for `size`.
pub record IsFifo {S : Type 0} (inb : ℕ → S → ℕ × S) (outb : ℕ → ℕ → S → S) (later : S → S)
    (sent : S → List ℕ) (room : S → ℕ) (size : ℕ) : Type 0 where
  pub empty : (s : S) → bit_and (inb (com1 + 5) s).0 0x20 ≢ 0 → size ≤ room (inb (com1 + 5) s).1
  pub room-poll : (s : S) → room s ≤ room (inb (com1 + 5) s).1
  pub sent-poll : (s : S) → sent (inb (com1 + 5) s).1 ≡ sent s
  pub room-outb : (a : ℕ) (s : S) → 0 < room s → room s ≤ room (outb com1 a s) + 1
  pub sent-outb : (a : ℕ) (s : S) → 0 < room s → sent (outb com1 a s) ≡ sent s ++ (a ∷ [])
  pub room-later : (s : S) → room s ≤ room (later s)
  pub sent-later : (s : S) → sent (later s) ≡ sent s

-- How many of the first `n` are raised.
abbrev count : ℕ → (ℕ → Bool) → ℕ
count zero f = 0
count (suc n) f = (if f n then 1 else 0) + count n f

count-le : (n : ℕ) (f : ℕ → Bool) → count n f ≤ n
count-le zero f = omega arith
count-le (suc n) f = ground (arith, count-le n f)

count-none : (n : ℕ) (f : ℕ → Bool) → ((k : ℕ) → f k ≡ false) → count n f ≤ 0
count-none zero f h = omega arith
count-none (suc n) f h = ground (arith, count-none n f h, h n)

count_mono : (n : ℕ) (f g : ℕ → Bool) → ((k : ℕ) → g k ≡ true → f k ≡ true) → count n g ≤ count n f
count_mono zero f g h = omega arith
count_mono (suc n) f g h = ground (arith, count_mono n f g h, h n)

count-drop :
    (n i : ℕ) (f g : ℕ → Bool)
    → i < n
    → f i ≡ true
    → g i ≡ false
    → ((k : ℕ) → g k ≡ true → f k ≡ true)
    → count n g + 1 ≤ count n f
count-drop zero i f g lt up down h = absurd (omega arith)
count-drop (suc n) i f g lt up down h = elim (Bool-cases (i == n)) [
  | inl same ↦
      let e : i ≡ n = (==_iff i n).0 same in
      let up' : f n ≡ true = sym (ap f e) ∙ up in
      let down' : g n ≡ false = sym (ap g e) ∙ down in
      ground (arith, up', down', count_mono n f g h)
  | inr other ↦
      let ne : i ≢ n = (λ e. cc ((==_iff i n).1 e, other)) in
      ground (arith, count-drop n i f g (omega (arith, lt, ne)) up down h, h n)
]

-- What process `i` has written.
abbrev pub bytes_of : ℕ → List (ℕ × ℕ) → List ℕ
bytes_of i [] = []
bytes_of i (p ∷ ps) = let rest = bytes_of i ps in if p.0 == i then p.1 ∷ rest else rest

bytes_of-append :
    (i : ℕ) (ps : List (ℕ × ℕ)) (p : ℕ × ℕ)
    → bytes_of i (ps ++ (p ∷ [])) ≡ bytes_of i ps ++ (if p.0 == i then p.1 ∷ [] else [])
bytes_of-append i [] p = elim (Bool-cases (p.0 == i)) [ inl e ↦ simp e | inr e ↦ simp e ]
bytes_of-append i (q ∷ ps) p = elim (Bool-cases (q.0 == i)) [
  | inl e ↦ simp (e, bytes_of-append i ps p)
  | inr e ↦ simp (e, bytes_of-append i ps p)
]

map-append : {A B : Type 0} (f : A → B) (xs ys : List A) → map f (xs ++ ys) ≡ map f xs ++ map f ys
map-append f [] ys = refl
map-append f (x ∷ xs) ys = ap (λ l. f x ∷ l) (map-append f xs ys)

left_same :
    (party : ℕ → Party) (i : ℕ) (b : Bool) (j : ℕ)
    → (write party i (record (party i) { allowed = b }) j).left ≡ (party j).left
left_same party i b j = elim (Bool-cases (i == j)) [
  | inl e ↦
      let at : (party i).left ≡ (party j).left = ap (λ k. (party k).left) ((==_iff i j).0 e) in
      simp (e, at)
  | inr e ↦ simp e
]

-- With its flag lowered, a process adds nothing to those that are raised.
lowered :
    (party : ℕ → Party) (i : ℕ) (p : Party)
    → p.allowed ≡ false
    → (k : ℕ) → (write party i p k).allowed ≡ true
    → (party k).allowed ≡ true
lowered party i p down k h = ground arith

module _ {S : Type 0} (inb : ℕ → S → ℕ × S) (outb : ℕ → ℕ → S → S) (later : S → S)
    (sent : S → List ℕ) (room : S → ℕ) (size : ℕ)
    (chip : IsFifo inb outb later sent room size) where
  abbrev raised : System S → ℕ → Bool
  raised v k = (v.party k).allowed

  -- There is room for the byte of each process that has seen the transmitter empty.
  record IsKept (n : ℕ) (start : S) (v : System S) : Type 0 where
    fits : count n (raised v) ≤ room v.chip
    all : sent v.chip ≡ sent start ++ map (λ p. p.1) v.log
    order : (i : ℕ) → bytes_of i v.log ++ (v.party i).left ≡ v.asked i

  poll_once-fits :
      (n i : ℕ) (v : System S)
      → n ≤ size
      → count n (raised v) ≤ room v.chip
      → count n (raised (poll_once inb outb i v)) ≤ room (poll_once inb outb i v).chip
  unfolding poll_once
  poll_once-fits n i v le h = elim (Bool-cases (bit_and (inb (com1 + 5) v.chip).0 0x20 == 0)) [
    | inl busy ↦
        let down : not (bit_and (inb (com1 + 5) v.chip).0 0x20 == 0) ≡ false = ap not busy in
        let fewer : count n (raised (poll_once inb outb i v)) ≤ count n (raised v) =
          count_mono n (raised v) (raised (poll_once inb outb i v)) (
            lowered v.party i
              (record (v.party i) { allowed = not (bit_and (inb (com1 + 5) v.chip).0 0x20 == 0) })
              down) in
        omega (arith, fewer, h, chip.room-poll v.chip)
    | inr empty ↦
        let ne : bit_and (inb (com1 + 5) v.chip).0 0x20 ≢ 0 = (λ e. cc ((==_iff _ 0).1 e, empty)) in
        omega (arith, le, chip.empty v.chip ne, count-le n (raised (poll_once inb outb i v)))
  ]

  poll_once-IsKept :
      (n i : ℕ) (start : S) (v : System S)
      → n ≤ size
      → IsKept n start v
      → IsKept n start (poll_once inb outb i v)
  unfolding poll_once
  poll_once-IsKept n i start v le k = record {
    fits = poll_once-fits n i v le k.fits;
    all = chip.sent-poll v.chip ∙ k.all;
    order = λ j.
        ap (λ l. bytes_of j v.log ++ l)
          (left_same v.party i (not (bit_and (inb (com1 + 5) v.chip).0 0x20 == 0)) j)
        ∙ k.order j;
  }

  put_next-order :
      (i a : ℕ) (rest : List ℕ) (v : System S)
      → (v.party i).left ≡ a ∷ rest
      → ((j : ℕ) → bytes_of j v.log ++ (v.party j).left ≡ v.asked j)
      → (j : ℕ)
      → bytes_of j (put_next inb outb i a rest v).log
          ++ ((put_next inb outb i a rest v).party j).left
        ≡ v.asked j
  unfolding put_next
  put_next-order i a rest v e h j = elim (Bool-cases (i == j)) [
    | inl same ↦
        let at : (v.party j).left ≡ a ∷ rest =
          ap (λ k. (v.party k).left) (sym ((==_iff i j).0 same)) ∙ e in
        let old : bytes_of j v.log ++ (a ∷ rest) ≡ v.asked j =
          ap (λ l. bytes_of j v.log ++ l) (sym at) ∙ h j in
        let shift : bytes_of j (v.log ++ ((i, a) ∷ []))
              ++ (write v.party i (record { left = rest; allowed = false }) j).left
            ≡ bytes_of j v.log ++ (a ∷ rest) =
          simp
            (same, bytes_of-append j v.log (i, a), append_assoc (bytes_of j v.log) (a ∷ []) rest) in
        shift ∙ old
    | inr other ↦
        let keep : bytes_of j (v.log ++ ((i, a) ∷ []))
              ++ (write v.party i (record { left = rest; allowed = false }) j).left
            ≡ bytes_of j v.log ++ (v.party j).left =
          simp (other, bytes_of-append j v.log (i, a), append-nil (bytes_of j v.log)) in
        keep ∙ h j
  ]

  put_next-IsKept :
      (n i a : ℕ) (rest : List ℕ) (start : S) (v : System S)
      → i < n
      → (v.party i).left ≡ a ∷ rest
      → (v.party i).allowed ≡ true
      → IsKept n start v
      → IsKept n start (put_next inb outb i a rest v)
  unfolding put_next
  put_next-IsKept n i a rest start v lt text up k =
      let p : Party = record { left = rest; allowed = false } in
      let down : (write v.party i p i).allowed ≡ false =
        ap (λ q. q.allowed) (write_self v.party i p) in
      let fewer : count n (raised (put_next inb outb i a rest v)) + 1 ≤ count n (raised v) =
        count-drop n i (raised v) (raised (put_next inb outb i a rest v)) lt up down
          (lowered v.party i p refl) in
      let some_room : 0 < room v.chip = omega (arith, fewer, k.fits) in
      record {
        fits = omega (arith, fewer, k.fits, chip.room-outb a v.chip some_room);
        all =
            chip.sent-outb a v.chip some_room
            ∙ ap (λ l. l ++ (a ∷ [])) k.all
            ∙ append_assoc (sent start) (map (λ q. q.1) v.log) (a ∷ [])
            ∙ ap (λ l. sent start ++ l) (sym (map-append (λ q. q.1) v.log ((i, a) ∷ [])));
        order = put_next-order i a rest v text k.order;
      }

  act-IsKept :
      (n i : ℕ) (start : S) (v : System S) (text : List ℕ) (b : Bool)
      → n ≤ size
      → i < n
      → (v.party i).left ≡ text
      → (v.party i).allowed ≡ b
      → IsKept n start v
      → IsKept n start (act inb outb i text b v)
  unfolding act
  act-IsKept n i start v [] b le lt e f k = k
  act-IsKept n i start v (a ∷ rest) false le lt e f k = poll_once-IsKept n i start v le k
  act-IsKept n i start v (a ∷ rest) true le lt e f k = put_next-IsKept n i a rest start v lt e f k

  call_print-order :
      (i : ℕ) (text : List ℕ) (v : System S)
      → (v.party i).left ≡ []
      → ((j : ℕ) → bytes_of j v.log ++ (v.party j).left ≡ v.asked j)
      → (j : ℕ)
      → bytes_of j v.log ++ ((call_print inb outb i text v).party j).left
        ≡ (call_print inb outb i text v).asked j
  call_print-order i text v e h j = elim (Bool-cases (i == j)) [
    | inl same ↦
        let at : bytes_of i v.log ≡ v.asked i =
          sym (append-nil (bytes_of i v.log)) ∙ ap (λ l. bytes_of i v.log ++ l) (sym e) ∙ h i in
        let eq : i ≡ j = (==_iff i j).0 same in
        let here : bytes_of j v.log ≡ v.asked i = ap (λ k. bytes_of k v.log) (sym eq) ∙ at in
        simp (same, here)
    | inr other ↦ rw other (h j)
  ]

  Step-IsKept :
      (n : ℕ) (start : S) {v w : System S}
      → n ≤ size
      → Step inb outb later n v w
      → IsKept n start v
      → IsKept n start w
  Step-IsKept n start {v} le (run i lt) k =
      act-IsKept n i start v (v.party i).left (v.party i).allowed le lt refl refl k
  Step-IsKept n start {v} le (begin i text e) k =
      let fewer =
        count_mono n (raised v) (raised (call_print inb outb i text v))
          (lowered v.party i (record { left = text; allowed = false }) refl) in
      record {
        fits = omega (arith, fewer, k.fits);
        all = k.all;
        order = call_print-order i text v e k.order;
      }
  Step-IsKept n start {v} le pass k = record {
    fits = omega (arith, k.fits, chip.room-later v.chip);
    all = chip.sent-later v.chip ∙ k.all;
    order = k.order;
  }

  Reach-IsKept :
      (n : ℕ) (start : S) {v w : System S}
      → n ≤ size
      → Reach inb outb later n v w
      → IsKept n start v
      → IsKept n start w
  Reach-IsKept n start le here k = k
  Reach-IsKept n start le (next r st) k = Step-IsKept n start le st (Reach-IsKept n start le r k)

  -- Processes that print at the same time over a chip whose FIFO is at least as long as there are
  -- processes, however their accesses interleave and whatever time passes: from a start at which
  -- none of them has passed its poll, every byte that is written is sent, in the order of the
  -- writes, and each process has written what it was to print, in its order, but for the text that
  -- it has left.
  pub Reach-Sent :
      (n : ℕ) (v w : System S)
      → n ≤ size
      → ((i : ℕ) → (v.party i).allowed ≡ false)
      → ((i : ℕ) → (v.party i).left ≡ v.asked i)
      → v.log ≡ []
      → Reach inb outb later n v w
      → (sent w.chip ≡ sent v.chip ++ map (λ p. p.1) w.log)
        × ((i : ℕ) → bytes_of i w.log ++ (w.party i).left ≡ w.asked i)
  Reach-Sent n v w le down text empty r =
      let none_raised : count n (raised v) ≤ 0 = count-none n (raised v) down in
      let k : IsKept n v.chip w = Reach-IsKept n v.chip le r (record {
        fits = omega (arith, none_raised);
        all = rw empty (sym (append-nil (sent v.chip)));
        order = λ i. rw empty (text i);
      }) in
      (k.all, k.order)
