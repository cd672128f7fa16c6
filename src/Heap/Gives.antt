-- ===== src/Heap/Gives.antt =====
-- What a command of memory/heap.cpp leaves of the chunks in a range, and of the headers outside.
use issanium.Prelude.{ℕ, ◌+◌, ◌≤◌, ◌<◌, ◌≡◌, ap, sym, ◌∙◌, arith, List, ◌∷◌, ◌⊎◌}
use issanium.Heap.{Header, Heap, Run, done}
use issanium.Heap.Chain.{Chunk, head_at, header, Chain, Chain-end}

abbrev pub SameOutside : {S : Type 0} → Heap S → ℕ → ℕ → (ℕ → Header) → Type 0
SameOutside h at end m = (a : ℕ) → (a < at) ⊎ (end ≤ a) → m a ≡ h.headers a

-- A command that gives `value` and leaves `cs` from `at` to `end`, behind the chunk at `prev`.
abbrev pub Gives : {S A : Type 0} → Heap S → ℕ → ℕ → A → ℕ → List Chunk → Run S A → Type 0
Gives h prev end value at cs r =
    (m : ℕ → Header) × (r ≡ done value (record h { headers = m }))
    × Chain m prev at cs end
    × SameOutside h at end m

-- A command on the chunks behind `c` keeps `c`, if it keeps where they begin.
pub Gives-cons :
    {S A : Type 0} (h : Heap S) (prev at end : ℕ) (c : Chunk) (ds cs : List Chunk) {value : A}
    {r : Run S A}
    → 0 < at
    → Chain h.headers prev at (c ∷ cs) end
    → head_at (at + (32 + c.bytes)) ds ≡ head_at (at + (32 + c.bytes)) cs
    → Gives h at end value (at + (32 + c.bytes)) ds r
    → Gives h prev end value at (c ∷ ds) r
Gives-cons h prev at end c ds cs pos chain same (m, run, rest, outside) =
    let room = Chain-end h.headers at (at + (32 + c.bytes)) cs end chain.1 in
    (
      m,
      run,
      (
        outside at (omega arith) ∙ chain.0 ∙ ap (λ t. header c.bytes c.taken t prev) (sym same),
        rest,
      ),
      λ a out. outside a (omega (arith, out, room)),
    )
