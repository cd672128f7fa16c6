-- ===== src/Prelude/Held.antt =====
-- What a client holds, as a list: facts about all entries and about each two of them.
use issanium.Prelude.{List, [], ◌∷◌, ◌++◌}

-- `ys` is `xs` less one `a`.
pub data Removes {ℓ} {A : Type ℓ} (a : A) : List A → List A → Type ℓ where
  first : {xs : List A} → Removes a (a ∷ xs) xs
  later : {x : A} {xs ys : List A} → Removes a xs ys → Removes a (x ∷ xs) (x ∷ ys)

abbrev pub All {ℓ κ} : {A : Type ℓ} → (A → Type κ) → List A → Type κ
All P [] = Unit
All P (x ∷ xs) = P x × All P xs

abbrev pub Pairwise {ℓ κ} : {A : Type ℓ} → (A → A → Type κ) → List A → Type κ
Pairwise R [] = Unit
Pairwise R (x ∷ xs) = All (R x) xs × Pairwise R xs

pub All-mono {ℓ κ μ} :
    {A : Type ℓ} {P : A → Type κ} {Q : A → Type μ} (xs : List A)
    → ((x : A) → P x → Q x)
    → All P xs
    → All Q xs
All-mono [] f h = tt
All-mono (x ∷ xs) f h = (f x h.0, All-mono xs f h.1)

-- An entry that has both facts.
pub All-mono₂ {ℓ κ μ ν} :
    {A : Type ℓ} {P : A → Type κ} {Q : A → Type μ} {R : A → Type ν} (xs : List A)
    → ((x : A) → P x → Q x → R x)
    → All P xs
    → All Q xs
    → All R xs
All-mono₂ [] f h k = tt
All-mono₂ (x ∷ xs) f h k = (f x h.0 k.0, All-mono₂ xs f h.1 k.1)

pub All-Removes {ℓ κ} :
    {A : Type ℓ} (P : A → Type κ) {a : A} {xs ys : List A} → Removes a xs ys → All P xs → All P ys
All-Removes P first h = h.1
All-Removes P (later r) h = (h.0, All-Removes P r h.1)

pub All-removed {ℓ κ} :
    {A : Type ℓ} (P : A → Type κ) {a : A} {xs ys : List A} → Removes a xs ys → All P xs → P a
All-removed P first h = h.0
All-removed P (later r) h = All-removed P r h.1

pub Pairwise-Removes {ℓ κ} :
    {A : Type ℓ} (R : A → A → Type κ) {a : A} {xs ys : List A}
    → ((x y : A) → R x y → R y x)
    → Removes a xs ys
    → Pairwise R xs
    → Pairwise R ys × All (R a) ys
Pairwise-Removes R turn first d = (d.1, d.0)
Pairwise-Removes R {a} turn (later {x} r) d =
    let rest = Pairwise-Removes R turn r d.1 in
    ((All-Removes (R x) r d.0, rest.0), (turn x a (All-removed (R x) r d.0), rest.1))

-- Entries that are pairwise related, each with a fact.
pub Pairwise-mono {ℓ κ μ ν} :
    {A : Type ℓ} {R : A → A → Type κ} {P : A → Type μ} {Q : A → A → Type ν} (xs : List A)
    → ((x y : A) → P x → P y → R x y → Q x y)
    → All P xs
    → Pairwise R xs
    → Pairwise Q xs
Pairwise-mono [] f h d = tt
Pairwise-mono (x ∷ xs) f h d =
    (All-mono₂ xs (λ y p r. f x y h.0 p r) h.1 d.0, Pairwise-mono xs f h.1 d.1)

pub All-snoc {ℓ κ} :
    {A : Type ℓ} (P : A → Type κ) (xs : List A) (y : A) → All P xs → P y → All P (xs ++ y ∷ [])
All-snoc P [] y h p = (p, tt)
All-snoc P (x ∷ xs) y h p = (h.0, All-snoc P xs y h.1 p)

pub Pairwise-snoc {ℓ κ} :
    {A : Type ℓ} (R : A → A → Type κ) (xs : List A) (y : A)
    → Pairwise R xs
    → All (λ x. R x y) xs
    → Pairwise R (xs ++ y ∷ [])
Pairwise-snoc R [] y d h = (tt, tt)
Pairwise-snoc R (x ∷ xs) y d h = (All-snoc (R x) xs y d.0 h.0, Pairwise-snoc R xs y d.1 h.1)
