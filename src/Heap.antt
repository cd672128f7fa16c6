-- ===== src/Heap.antt =====
-- memory/heap.cpp: the list of chunks behind `kmalloc` and `kfree`. The headers are a store from
-- addresses to structures, which lie apart on every heap that the operations build (Heap.Chain).
-- The page allocator and the page tables enter through the interface `Paging`.
pub mod Chain
pub mod Gives
pub mod Take
pub mod Walk
pub mod Join
pub mod Free
pub mod Coalesced
pub mod Blocks
pub mod State
pub mod Grow
pub mod Fuel
pub mod Clients
use issanium.Prelude.{
  ℕ, zero, suc, ◌+◌, ◌-◌, ◌*◌, ◌%◌, ◌^◌, Bool, true, false, not, ◌&&◌, ◌||◌, ltb, leb, ◌==◌,
  if◌then◌else◌, bit_and,
}
use issanium.Prelude.Word.{u64, sub64}
use issanium.Prelude.Memory.{write}

pub record Header : Type 0 where
  pub size : ℕ
  pub used : Bool
  pub next : ℕ
  pub prev : ℕ

abbrev pub sizeof_Header : ℕ
sizeof_Header = 32

abbrev pub heap_base : ℕ
heap_base = 0x0000100000000000

abbrev pub initial_pages : ℕ
initial_pages = 1024

-- What the heap calls of PMM and VMM, and which addresses can be accessed.
pub record Paging (S : Type 0) : Type 0 where
  pub alloc_page : S → ℕ × S
  pub map_page : ℕ → ℕ → ℕ → S → S
  pub mapped : S → ℕ → Bool

pub record Heap (S : Type 0) : Type 0 where
  pub heap_start : ℕ
  pub heap_end : ℕ
  pub headers : ℕ → Header
  pub paging : S

-- A page fault stops the kernel; it carries the address that was accessed.
pub data Run (S A : Type 0) : Type 0 where
  done : A → Heap S → Run S A
  page_fault : ℕ → Run S A
  out_of_fuel : Run S A

abbrev pub Cmd : Type 0 → Type 0 → Type 0
Cmd S A = Heap S → Run S A

abbrev pub pure : {S A : Type 0} → A → Cmd S A
pure a h = done a h

module _ {S A B : Type 0} where
  abbrev pub and_then : Run S A → (A → Cmd S B) → Run S B
  and_then (done a h) k = k a h
  and_then (page_fault p) k = page_fault p
  and_then out_of_fuel k = out_of_fuel

  infixl 5 ◌>>=◌ ◌>>◌
  abbrev pub ◌>>=◌ : Cmd S A → (A → Cmd S B) → Cmd S B
  m >>= k = λ h. and_then (m h) k

  abbrev pub ◌>>◌ : Cmd S A → Cmd S B → Cmd S B
  m >> n = m >>= λ _. n

-- size = (size + 7) & ~7ULL;
unfoldable pub align_size : ℕ → ℕ
align_size size = bit_and (u64 (size + 7)) (2 ^ 64 - 2 ^ 3)

module _ {S : Type 0} (p : Paging S) where
  -- Both ends of a structure must be mapped.
  abbrev pub readable : S → ℕ → Bool
  readable s a = p.mapped s a && p.mapped s (a + 31)

  unfoldable pub load : ℕ → Cmd S Header
  load a h = if readable h.paging a then done (h.headers a) h else page_fault a

  unfoldable pub store : ℕ → Header → Cmd S (Unit {0})
  store a v h =
      if readable h.paging a
      then done tt (record h { headers = write h.headers a v })
      else page_fault a

  -- The writes of some fields through a pointer.
  abbrev pub modify : ℕ → (Header → Header) → Cmd S (Unit {0})
  modify a f = load a >>= λ c. store a (f c)

  -- `if (a) a->prev = v;`
  unfoldable pub set_prev : ℕ → ℕ → Cmd S (Unit {0})
  set_prev a v = if a == 0 then pure tt else modify a (λ c. record c { prev = v })

  -- One round of `expand` once a page is there.
  abbrev pub grow : ℕ → S → Heap S → Heap S
  grow phys s h = record h {
    heap_end = u64 (h.heap_end + 4096);
    paging = p.map_page h.heap_end phys 2 s;
  }

  unfoldable pub expand : ℕ → Heap S → Heap S
  expand zero h = h
  expand (suc pages) h =
      let r = p.alloc_page h.paging in
      let rest = expand pages (grow r.0 r.1 h) in
      if r.0 == 0 then record h { paging = r.1 } else rest

  unfoldable pub init_heap : Cmd S (Unit {0})
  init_heap h =
      store heap_base
        (record { size = initial_pages * 4096 - sizeof_Header; used = false; next = 0; prev = 0 })
        (record (expand initial_pages h) { heap_start = heap_base })

  -- The new chunk behind `size` bytes of `current`, whose header is `c`.
  unfoldable pub split : ℕ → ℕ → Header → Cmd S (Unit {0})
  split size current c =
      let new_chunk = u64 (current + sizeof_Header + size) in
      do
        store new_chunk (record {
          size = sub64 (sub64 c.size size) sizeof_Header;
          used = false;
          next = c.next;
          prev = current;
        })
        set_prev c.next new_chunk
        modify current (λ d. record d { next = new_chunk; size = size })

  -- The rest of the loop's body at a chunk that is free and large enough.
  unfoldable pub take_chunk : ℕ → ℕ → Header → Cmd S ℕ
  take_chunk size current c = do
    if leb (u64 (size + sizeof_Header + 8)) c.size then split size current c else pure tt
    modify current (λ d. record d { used = true })
    pure (u64 (current + sizeof_Header))

  -- while (current) …, with fuel; 0 if no chunk is free and large enough.
  unfoldable pub search_chunk : ℕ → ℕ → ℕ → Cmd S ℕ
  search_chunk zero size current = λ _. out_of_fuel
  search_chunk (suc fuel) size current = if current == 0 then pure 0 else do
    c ← load current
    if c.used || ltb c.size size then search_chunk fuel size c.next else take_chunk size current c

  -- while (last->next) last = last->next;
  unfoldable pub find_last : ℕ → ℕ → Cmd S ℕ
  find_last zero last = λ _. out_of_fuel
  find_last (suc fuel) last = do
    c ← load last
    if c.next == 0 then pure last else find_last fuel c.next

  -- The new chunk at the end of the heap, behind `last`.
  unfoldable pub append_chunk : ℕ → ℕ → Cmd S (Unit {0})
  append_chunk new_chunk last = do
    store new_chunk
        (record { size = 64 * 4096 - sizeof_Header; used = false; next = 0; prev = last })
    modify last (λ c. record c { next = new_chunk })

  -- expand(64), and the new chunk.
  unfoldable pub add_chunk : ℕ → Cmd S (Unit {0})
  add_chunk fuel h =
      let grown = expand 64 h in
      and_then (find_last fuel grown.heap_start grown) (append_chunk grown.heap_end)

  -- `walk` is the fuel of the walks along the list, `fuel` that of the calls of `kmalloc` itself.
  unfoldable pub kmalloc : ℕ → ℕ → ℕ → Cmd S ℕ
  kmalloc walk zero size h = out_of_fuel
  kmalloc walk (suc fuel) size h =
      let aligned = align_size size in
      and_then (search_chunk walk aligned h.heap_start h)
        (λ found. if found == 0 then add_chunk walk >> kmalloc walk fuel aligned else pure found)

  -- left->size += sizeof(Header) + right->size; left->next = right->next; and the link back.
  -- `r` is the header of the chunk on the right.
  unfoldable pub join_chunks : ℕ → Header → Cmd S (Unit {0})
  join_chunks left r = do
    modify left (λ d. record d { size = u64 (d.size + (sizeof_Header + r.size)); next = r.next })
    set_prev r.next left

  -- Merge with next chunk if it's free.
  unfoldable pub merge_next : ℕ → Cmd S (Unit {0})
  merge_next header = do
    c ← load header
    if c.next == 0
        then pure tt
        else do n ← load c.next; if n.used then pure tt else join_chunks header n

  -- Merge with previous chunk if it's free.
  unfoldable pub merge_prev : ℕ → Cmd S (Unit {0})
  merge_prev header = do
    c ← load header
    if c.prev == 0
        then pure tt
        else do b ← load c.prev; if b.used then pure tt else join_chunks c.prev c

  unfoldable pub kfree : ℕ → Cmd S (Unit {0})
  kfree ptr =
      let header = sub64 ptr sizeof_Header in
      if ptr == 0
      then pure tt
      else do modify header (λ c. record c { used = false }); merge_next header; merge_prev header
