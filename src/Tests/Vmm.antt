-- ===== src/Tests/Vmm.antt =====
-- Runs of memory/vmm.cpp over memory/pmm.cpp, and the theorems at concrete inputs.
use issanium.Prelude.{◌==◌, if◌then◌else◌, ℕ, ◌-◌, ◌^◌, ◌≡◌, refl, arith, [], ◌∷◌, ◌⊎◌}
use issanium.Prelude.Memory.{count_up}
use issanium.Pmm.{Pmm, alloc, alloc_from, bitmap_test, bitmap_set}
use issanium.Pmm.Count.{free_below}
use issanium.Vmm.{
  Vmm, follow, page_at, descend, get_or_create_table, create_table, set_leaf, is_present, frame_of,
  make_entry, init_tables, map_page, unmap, virt_to_phys,
}
use issanium.Vmm.Tree.{Roles, IsTree}
use issanium.Vmm.Unmap.{Keeps, virt_to_phys-unmap}
use issanium.Vmm.Map.{virt_to_phys-map_page}
use issanium.Vmm.Setup.{IsLoaded, init_tables-IsTree}
use issanium.Heap.{heap_base}
use issanium.Boot.{pmm_frames}
use issanium.Boot.Pages.{IsPages, is_used, pmm_frames-IsFrames}

-- 8192 pages, of which 0 and the loader's table at page 1 are used.
abbrev some_pages : Pmm
some_pages = record {
  bitmap = 0x8000;
  words = λ i. if i == 0 then 3 else 0;
  total_pages = 8192;
  free_pages = 8190;
  hhdm = 2 ^ 64 - 2 ^ 47;
}

some_pages-IsPages : IsPages some_pages
unfolding free_below bitmap_test
some_pages-IsPages = record {
  valid = record { small = omega arith; counted = refl };
  size = omega arith;
  null = refl;
}

abbrev high : ℕ
high = 2 ^ 64 - 2 ^ 47

-- Before `init`: the loader's table maps the higher half.
abbrev loader : Vmm Pmm
loader = record { hhdm = 0; pml4 = 0; cr3 = 0x1000; flushed = []; words = λ a. 3; pmm = some_pages }

loader-IsLoaded : IsLoaded pmm_frames IsPages is_used pmm_frames-IsFrames high loader
unfolding alloc alloc_from bitmap_test
loader-IsLoaded = record {
  offset = (refl, omega arith);
  allocator = some_pages-IsPages;
  some_page = omega arith;
  loaded = (refl, omega arith);
  held = refl;
}

abbrev fresh_tables : Vmm Pmm
fresh_tables = init_tables pmm_frames high loader

abbrev fresh-IsTree : (r : Roles) × IsTree IsPages is_used r fresh_tables
fresh-IsTree =
    (init_tables-IsTree pmm_frames IsPages is_used pmm_frames-IsFrames high loader
      loader-IsLoaded).0

abbrev one_mapped : Vmm Pmm
one_mapped = map_page pmm_frames heap_base 0x9000 2 fresh_tables

mapped_at_base : virt_to_phys heap_base one_mapped ≡ 0x9000
unfolding virt_to_phys follow page_at map_page descend get_or_create_table create_table init_tables
    set_leaf is_present frame_of make_entry alloc alloc_from bitmap_test bitmap_set count_up
mapped_at_base = refl

virt_to_phys-map_page_example :
    ((q : Roles) × IsTree IsPages is_used q one_mapped)
    × (Keeps IsPages is_used fresh-IsTree.0 fresh_tables fresh-IsTree.1 heap_base one_mapped
        × (((virt_to_phys heap_base one_mapped ≡ 0x9000)
              × (one_mapped.flushed ≡ heap_base ∷ fresh_tables.flushed))
            ⊎ ((virt_to_phys heap_base one_mapped ≡ virt_to_phys heap_base fresh_tables)
                × ((p : Pmm) × (IsPages p × (alloc p ≡ (0, one_mapped.pmm)))))))
virt_to_phys-map_page_example =
    virt_to_phys-map_page pmm_frames IsPages is_used pmm_frames-IsFrames fresh-IsTree.0 fresh_tables
      fresh-IsTree.1 heap_base 0x9000 2 (omega arith) refl (omega arith) (omega arith)

abbrev one-IsTree : (r : Roles) × IsTree IsPages is_used r one_mapped
one-IsTree =
    (virt_to_phys-map_page pmm_frames IsPages is_used pmm_frames-IsFrames fresh-IsTree.0
      fresh_tables fresh-IsTree.1 heap_base 0x9000 2 (omega arith) refl (omega arith)
      (omega arith)).0

virt_to_phys-unmap_example :
    (((virt_to_phys heap_base (unmap heap_base one_mapped) ≡ 0)
        × Keeps IsPages is_used one-IsTree.0 one_mapped one-IsTree.1 heap_base
            (unmap heap_base one_mapped))
      × (IsTree IsPages is_used one-IsTree.0 (unmap heap_base one_mapped)
          × ((unmap heap_base one_mapped ≡ one_mapped)
              ⊎ ((unmap heap_base one_mapped).flushed ≡ heap_base ∷ one_mapped.flushed))))
virt_to_phys-unmap_example =
    virt_to_phys-unmap IsPages is_used one-IsTree.0 one_mapped one-IsTree.1 heap_base (omega arith)
