-- ===== src/Heap/Clients.antt =====
-- Clients of memory/heap.cpp that take blocks and give them back, in any order of calls.
use mathlib.Core.Path.{subst}
use mathlib.Core.Option
use issanium.Prelude.{
  Option, none, some, ℕ, suc, ◌+◌, ◌^◌, ◌≤◌, ◌<◌, ◌≡◌, ◌≢◌, refl, ap, sym, ◌∙◌, arith, true, false,
  List, [], ◌∷◌, length, ◌⊎◌, inl, inr, Bool-cases, max,
}
use issanium.Prelude.Held.{
  Removes, All, Pairwise, All-mono, All-mono₂, All-Removes, All-removed, Pairwise-Removes,
  Pairwise-mono,
}
use issanium.Heap.{Header, Heap, Paging, Run, done, page_fault, kmalloc, kfree, expand}
use issanium.Heap.Chain.{Chunk, Mapped, Chain-end}
use issanium.Heap.Walk.{take_first}
use issanium.Heap.Free.{release, place}
use issanium.Heap.Coalesced.{has_room}
use issanium.Heap.State.{IsHeap, rounded, kmalloc-take_first, kfree-IsHeap}
use issanium.Heap.Grow.{kmalloc_exhausted, expand_headers}
use issanium.Heap.Fuel.{kmalloc-Extends}
use issanium.Heap.Blocks.{
  Has, Has-range, Has-apart, Has-place, Has-take_first, IsFresh, take_first-IsFresh, Has-release,
}

-- A pointer, and the size that was asked for.
abbrev pub Block : Type 0
Block = ℕ × ℕ

module _ {S A : Type 0} where
  abbrev returned : Run S A → Option (A × Heap S)
  returned (done a h) = some (a, h)
  returned r = none

  page_fault-ne_done : {a : A} {h : Heap S} {x : ℕ} → ¬ (done a h ≡ page_fault x)
  page_fault-ne_done e = some-ne_none (ap returned e)
    where
      some-ne_none : {b : A × Heap S} → ¬ (some b ≡ none)
      some-ne_none f = cc

  pub done-injective :
      {r : Run S A} {a b : A} {g h : Heap S} → r ≡ done a g → r ≡ done b h → (a ≡ b) × (g ≡ h)
  done-injective {a} {g} e f =
      let out = (λ (r : Run S A). Option.get_or (returned r) (a, g)) in
      (ap (λ r. (out r).0) (sym e ∙ f), ap (λ r. (out r).1) (sym e ∙ f))

module _ {S : Type 0} (p : Paging S) where
  -- The heap, and the blocks that its clients hold.
  pub record Ledger : Type 0 where
    pub heap : Heap S
    pub held : List Block

  -- A client gets a block, by a call that returns, or gives back one that it holds.
  pub data Step (l : Ledger) : Ledger → Type 0 where
    take :
        (size ptr walk fuel : ℕ) (g : Heap S)
        → size + 7 < 2 ^ 64
        → kmalloc p walk (suc fuel) size l.heap ≡ done ptr g
        → Step l (record { heap = g; held = (ptr, size) ∷ l.held })
    give :
        (ptr size : ℕ) (rest : List Block) (g : Heap S)
        → Removes (ptr, size) l.held rest
        → kfree p ptr l.heap ≡ done tt g
        → Step l (record { heap = g; held = rest })

  pub data Reach (l : Ledger) : Ledger → Type 0 where
    here : Reach l l
    next : {m n : Ledger} → Reach l m → Step m n → Reach l n

  -- An expansion leaves the heap mapped, and its end unmapped.
  abbrev pub IsSealed : Heap S → Type 0
  IsSealed h =
      Mapped p (expand p 64 h).paging h.heap_start h.heap_end
      × (p.mapped (expand p 64 h).paging (expand p 64 h).heap_end ≡ false)

  -- The block is the data of a chunk that is handed out.
  abbrev IsHeld : ℕ → List Chunk → Block → Type 0
  IsHeld start cs (ptr, size) = (a n : ℕ) × (ptr ≡ a + 32) × (size ≤ n) × Has start cs a n

  abbrev Differ : Block → Block → Type 0
  Differ b c = b.0 ≢ c.0

  record IsOwned (l : Ledger) (cs : List Chunk) : Type 0 where
    valid : IsHeap p l.heap cs
    closed : IsSealed l.heap
    taken : All (IsHeld l.heap.heap_start cs) l.held
    distinct : Pairwise Differ l.held

  IsSealed-headers :
      (h : Heap S) (m : ℕ → Header) → IsSealed h → IsSealed (record h { headers = m })
  IsSealed-headers h m s =
      subst
        (λ (t : Heap S).
          Mapped p t.paging h.heap_start h.heap_end × (p.mapped t.paging t.heap_end ≡ false))
        (sym (expand_headers p 64 h m)) s

  -- A call that returns found room.
  has_room-done :
      (h : Heap S) (cs : List Chunk) (size ptr w fuel : ℕ) (g : Heap S)
      → IsHeap p h cs
      → IsSealed h
      → length cs < w
      → size + 7 < 2 ^ 64
      → kmalloc p w (suc fuel) size h ≡ done ptr g
      → has_room (rounded size) cs ≡ true
  has_room-done h cs size ptr w fuel g v closed enough small run =
      elim (Bool-cases (has_room (rounded size) cs)) [
        | inl room ↦ room
        | inr full ↦ absurd (
            page_fault-ne_done (
              sym run ∙ kmalloc_exhausted p h cs w fuel size v closed.0 enough small full closed.1))
      ]

  take-IsOwned :
      (l : Ledger) (cs : List Chunk) (size a k : ℕ) (m : ℕ → Header)
      → IsOwned l cs
      → IsHeap p (record l.heap { headers = m }) (take_first (rounded size) cs)
      → IsFresh (rounded size) l.heap.heap_start cs a k
      → IsOwned
          (record { heap = record l.heap { headers = m }; held = (a + 32, size) ∷ l.held })
          (take_first (rounded size) cs)
  take-IsOwned l cs size a k m o v f =
      let start = l.heap.heap_start in
      let n = rounded size in
      record {
        valid = v;
        closed = IsSealed-headers l.heap m o.closed;
        taken = (
          (a, k, refl, omega (arith, f.enough), f.after),
          All-mono l.held (λ b (x, y, e, le, h). (x, y, e, le, Has-take_first n start cs x y h))
              o.taken,
        );
        distinct = (
          All-mono l.held
              (λ b (x, y, e, le, h) same.
                f.before y (subst (λ t. Has start cs t y) (omega (arith, e, same)) h))
              o.taken,
          o.distinct,
        );
      }

  give-IsOwned :
      (l : Ledger) (cs : List Chunk) (b : Block) (rest : List Block) (i a : ℕ) (m : ℕ → Header)
      → IsOwned l cs
      → Removes b l.held rest
      → b.0 ≡ a + 32
      → place i l.heap.heap_start cs ≡ a
      → IsHeap p (record l.heap { headers = m }) (release i cs)
      → IsOwned (record { heap = record l.heap { headers = m }; held = rest }) (release i cs)
  give-IsOwned l cs b rest i a m o r pointer at v =
      let start = l.heap.heap_start in
      let d = Pairwise-Removes Differ (λ x y ne e. ne (sym e)) r o.distinct in
      record {
        valid = v;
        closed = IsSealed-headers l.heap m o.closed;
        taken =
            All-mono₂ rest
              (λ c ne (x, y, e, le, h). (
                x,
                y,
                e,
                le,
                Has-release i start cs x y (λ q. ne (omega (arith, pointer, at, e, q))) h,
              ))
              d.1 (All-Removes (IsHeld start cs) r o.taken);
        distinct = d.0;
      }

  Step-IsOwned :
      {l m : Ledger} (cs : List Chunk) → Step l m → IsOwned l cs → (ds : List Chunk) × IsOwned m ds
  Step-IsOwned {l} cs (take size ptr walk fuel g small run) o =
      let w = max walk (suc (length cs)) in
      let n = rounded size in
      let call = kmalloc-Extends p walk w (suc fuel) size l.heap (omega arith) ptr g run in
      let room =
        has_room-done l.heap cs size ptr w fuel g o.valid o.closed (omega arith) small call in
      let (m, run', v) =
        kmalloc-take_first p l.heap cs o.valid w fuel size (omega arith) small room in
      let (a, k, f) = take_first-IsFresh n l.heap.heap_start cs room in
      let same = done-injective call run' in
      (
        take_first n cs,
        subst (λ t. IsOwned (record { heap = g; held = (t, size) ∷ l.held }) (take_first n cs))
            (sym f.pointer ∙ sym same.0)
            (subst
              (λ t. IsOwned (record { heap = t; held = (a + 32, size) ∷ l.held }) (take_first n cs))
              (sym same.1) (take-IsOwned l cs size a k m o v f)),
      )
  Step-IsOwned {l} cs (give ptr size rest g r run) o =
      let (a, n, e, le, h) = All-removed (IsHeld l.heap.heap_start cs) r o.taken in
      let (i, lt, at) = Has-place l.heap.heap_start cs a n h in
      let (m, run', v) = kfree-IsHeap p l.heap cs o.valid i lt in
      let call =
        subst (λ t. kfree p t l.heap ≡ done tt (record l.heap { headers = m }))
          (omega (arith, e, at)) run' in
      (
        release i cs,
        subst (λ t. IsOwned (record { heap = t; held = rest }) (release i cs))
            (done-injective call run).1 (give-IsOwned l cs (ptr, size) rest i a m o r e at v),
      )

  Reach-IsOwned :
      (h : Heap S) (cs : List Chunk) {l : Ledger}
      → IsHeap p h cs
      → IsSealed h
      → Reach (record { heap = h; held = [] }) l
      → (ds : List Chunk) × IsOwned l ds
  Reach-IsOwned h cs v closed here =
      (cs, record { valid = v; closed = closed; taken = tt; distinct = tt })
  Reach-IsOwned h cs v closed (next r st) =
      let (ds, o) = Reach-IsOwned h cs v closed r in Step-IsOwned ds st o

  -- All bytes of the block are the heap's, and a header fits in front.
  abbrev pub Inside : Heap S → Block → Type 0
  Inside h (ptr, size) = (h.heap_start + 32 ≤ ptr) × (ptr + size ≤ h.heap_end)

  abbrev pub Apart : Block → Block → Type 0
  Apart (ptr, size) (ptr', size') = (ptr + size ≤ ptr') ⊎ (ptr' + size' ≤ ptr)

  -- From a heap of which nothing is held, whose expansion leaves it mapped and its end unmapped:
  -- however clients take blocks by calls that return and give back blocks that they hold, each block
  -- held has the size that was asked for inside the heap, and no two of them overlap.
  pub Reach-Apart :
      (h : Heap S) (cs : List Chunk) {l : Ledger}
      → IsHeap p h cs
      → IsSealed h
      → Reach (record { heap = h; held = [] }) l
      → All (Inside l.heap) l.held × Pairwise Apart l.held
  Reach-Apart h cs {l} v closed r =
      let (ds, o) = Reach-IsOwned h cs v closed r in
      let start = l.heap.heap_start in
      let end = Chain-end l.heap.headers 0 start ds l.heap.heap_end o.valid.chain in
      (
        All-mono l.held (λ b (a, n, e, le, h). omega (arith, e, le, end, Has-range start ds a n h))
            o.taken,
        Pairwise-mono l.held
            (λ b c (a, n, e, le, h) (a', n', e', le', h') ne. omega (
              arith,
              e,
              e',
              le,
              le',
              Has-apart start ds a n a' n' h h' (λ q. ne (omega (arith, e, e', q))),
            ))
            o.taken o.distinct,
      )
