-- ===== src/Heap/Fuel.antt =====
-- memory/heap.cpp: a call of kmalloc that returns does the same with more fuel for its walks.
use issanium.Prelude.{
  ℕ, zero, suc, ◌≤◌, ◌≡◌, refl, ap, ◌∙◌, arith, true, false, Bool, ◌||◌, ltb, ◌==◌, if◌then◌else◌,
}
use issanium.Heap.{
  Heap, Paging, Run, done, page_fault, out_of_fuel, Cmd, pure, and_then, ◌>>◌, load, expand,
  take_chunk, search_chunk, find_last, append_chunk, add_chunk, kmalloc, align_size,
}

-- What the first returns, the second does.
abbrev pub Extends : {S A : Type 0} → Run S A → Run S A → Type 0
Extends {S} {A} r t = (a : A) (g : Heap S) → r ≡ done a g → t ≡ done a g

and_then-Extends :
    {S A B : Type 0} (r t : Run S A) (k l : A → Cmd S B)
    → Extends r t
    → ((a : A) (h : Heap S) → Extends (k a h) (l a h))
    → Extends (and_then r k) (and_then t l)
and_then-Extends (done a h) t k l f e b g run = ap (λ u. and_then u l) (f a h refl) ∙ e a h b g run
and_then-Extends (page_fault x) t k l f e b g run = absurd (cc)
and_then-Extends out_of_fuel t k l f e b g run = absurd (cc)

if-Extends :
    {S A : Type 0} (b : Bool) (r t u v : Cmd S A) (h : Heap S)
    → Extends (r h) (u h)
    → Extends (t h) (v h)
    → Extends ((if b then r else t) h) ((if b then u else v) h)
if-Extends true r t u v h e f = e
if-Extends false r t u v h e f = f

module _ {S : Type 0} (p : Paging S) where
  search_chunk-Extends :
      (f g size current : ℕ) (h : Heap S)
      → f ≤ g
      → Extends (search_chunk p f size current h) (search_chunk p g size current h)
  unfolding search_chunk
  search_chunk-Extends zero g size current h le = λ a j run. absurd (cc)
  search_chunk-Extends (suc f) zero size current h le = absurd (omega arith)
  search_chunk-Extends (suc f) (suc g) size current h le =
      if-Extends (current == 0) (pure 0) _ (pure 0) _ h (λ a j run. run)
        (and_then-Extends (load p current h) (load p current h) _ _ (λ a j run. run)
          (λ c i.
            if-Extends (c.used || ltb c.size size) (search_chunk p f size c.next)
              (take_chunk p size current c) (search_chunk p g size c.next)
              (take_chunk p size current c) i
              (search_chunk-Extends f g size c.next i (omega (arith, le))) (λ a j run. run)))

  find_last-Extends :
      (f g last : ℕ) (h : Heap S) → f ≤ g → Extends (find_last p f last h) (find_last p g last h)
  unfolding find_last
  find_last-Extends zero g last h le = λ a j run. absurd (cc)
  find_last-Extends (suc f) zero last h le = absurd (omega arith)
  find_last-Extends (suc f) (suc g) last h le =
      and_then-Extends (load p last h) (load p last h) _ _ (λ a j run. run)
        (λ c i.
          if-Extends (c.next == 0) (pure last) (find_last p f c.next) (pure last)
            (find_last p g c.next) i (λ a j run. run)
            (find_last-Extends f g c.next i (omega (arith, le))))

  add_chunk-Extends : (f g : ℕ) (h : Heap S) → f ≤ g → Extends (add_chunk p f h) (add_chunk p g h)
  unfolding add_chunk
  add_chunk-Extends f g h le =
      let grown = expand p 64 h in
      and_then-Extends (find_last p f grown.heap_start grown) (find_last p g grown.heap_start grown)
        (append_chunk p grown.heap_end) (append_chunk p grown.heap_end)
        (find_last-Extends f g grown.heap_start grown le) (λ a i b j run. run)

  -- A call of kmalloc that returns does the same with more fuel for its walks.
  pub kmalloc-Extends :
      (f g fuel size : ℕ) (h : Heap S)
      → f ≤ g
      → Extends (kmalloc p f fuel size h) (kmalloc p g fuel size h)
  unfolding kmalloc
  kmalloc-Extends f g zero size h le = λ a j run. absurd (cc)
  kmalloc-Extends f g (suc fuel) size h le =
      let aligned = align_size size in
      and_then-Extends (search_chunk p f aligned h.heap_start h)
        (search_chunk p g aligned h.heap_start h) _ _
        (search_chunk-Extends f g aligned h.heap_start h le)
        (λ found i.
          if-Extends (found == 0) (add_chunk p f >> kmalloc p f fuel aligned) (pure found)
            (add_chunk p g >> kmalloc p g fuel aligned) (pure found) i
            (and_then-Extends (add_chunk p f i) (add_chunk p g i) _ _ (add_chunk-Extends f g i le)
              (λ u j. kmalloc-Extends f g fuel aligned j le))
            (λ a j run. run))
