-- ===== src/Tests/Pmm.antt =====
-- Runs of memory/pmm.cpp, and its theorems at concrete inputs.
use issanium.Prelude.{ℕ, ◌^◌, ◌<◌, ◌≡◌, ◌≢◌, refl, arith, false, List, [], ◌∷◌, some, inl}
use issanium.Pmm.{Pmm, bitmap_test, alloc}
use issanium.Pmm.Count.{IsValid, free_below}
use issanium.Pmm.Alloc.{Allocates, alloc-Allocates}
use issanium.Pmm.Owners.{Ledger, here, next, take, IsOwned, Reach-IsOwned}
use issanium.Pmm.Init.{Entry, init, highest_from, find_region}
use issanium.Pmm.Init.Regions.{IsMemmap}
use issanium.Pmm.Init.Map.{IsReady, init-IsReady}

-- Four pages, of which 0 and 2 are used.
abbrev four : Pmm
four = record { bitmap = 0x8000; words = λ _. 5; total_pages = 4; free_pages = 2; hhdm = 0x8000 }

four-IsValid : IsValid four
unfolding free_below bitmap_test
four-IsValid = record { small = omega arith; counted = refl }

-- `alloc` hands out page 1.
first_of_four : (alloc four).0 ≡ 4096
unfolding alloc bitmap_test
first_of_four = refl

-- Low memory that firmware keeps, and two usable regions.
abbrev entries : List Entry
entries =
    record { base = 0; length = 0x1000; kind = 1 }
    ∷ record { base = 0x1000; length = 0x3000; kind = 0 }
    ∷ record { base = 0x8000; length = 0x2000; kind = 0 }
    ∷ []

abbrev before : Pmm
before = record { bitmap = 0; words = λ _. 0; total_pages = 0; free_pages = 0; hhdm = 0 }

entries-IsMemmap : IsMemmap entries
entries-IsMemmap = (
  (λ e. cc),
  ((λ e. cc), ((λ e. cc), tt)),
  (
    (λ e. record { aligned = (refl, refl); fits = omega arith }),
    ((λ e f. inl (omega arith)), tt),
    ((λ e. record { aligned = (refl, refl); fits = omega arith }), tt, tt),
  ),
)

init-IsReady_example : IsReady entries (init (2 ^ 40) (some entries) (λ _ _. 7) before)
unfolding highest_from find_region
init-IsReady_example =
    init-IsReady (2 ^ 40) entries (λ _ _. 7) before entries-IsMemmap (omega arith) (omega arith)
      refl refl (omega arith)

alloc-Allocates_example : Allocates 0 4 four (alloc four)
alloc-Allocates_example = alloc-Allocates four four-IsValid

one_is_free : (i : ℕ) × (i < 4) × (bitmap_test i four ≡ false)
unfolding bitmap_test
one_is_free = (1, omega arith, refl)

abbrev owner : Ledger
owner = record { pmm = (alloc four).1; held = (alloc four).0 ∷ [] }

first_of_four-ne : (alloc four).0 ≢ 0
first_of_four-ne = omega (arith, first_of_four)

Reach-IsOwned_example : IsOwned owner
Reach-IsOwned_example = Reach-IsOwned four four-IsValid (next here (take first_of_four-ne))
