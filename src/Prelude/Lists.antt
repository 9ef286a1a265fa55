-- ===== src/Prelude/Lists.antt =====
-- Lists measured by native numbers, and membership and universal predicates by recursion.
use Prim.Native.Nat.{ℕ, suc}
use mathlib.Core.Path.{◌≡◌, refl, sym, ap}
use mathlib.Core.Logic.{◌⊎◌, inl, inr}
use mathlib.Core.Bool.{Bool}
use mathlib.Core.List.{List, [], ◌∷◌, ◌++◌, map}
use goga.Prelude.Tests.{if◌then◌else◌}

module _ {ℓ} {A : Type ℓ} where
  abbrev pub length : List A → ℕ
  length [] = 0
  length (x ∷ xs) = suc (length xs)

  -- The library's `filter` takes a decision; this one takes a test.
  abbrev pub filter : (A → Bool) → List A → List A
  filter p [] = []
  filter p (x ∷ xs) = let rest = filter p xs in if p x then x ∷ rest else rest

pub List-cases {ℓ} :
    {A : Type ℓ} (xs : List A) → (xs ≡ []) ⊎ ((x : A) × (rest : List A) × (xs ≡ x ∷ rest))
List-cases [] = inl refl
List-cases (x ∷ rest) = inr (x, rest, refl)

module _ {A : Type 0} where
  -- `x` is listed, with the place where it stands.
  abbrev pub Listed : A → List A → Type 0
  Listed x [] = ⊥
  Listed x (y ∷ ys) = (x ≡ y) ⊎ Listed x ys

  pub Listed-append_left : (x : A) (xs ys : List A) → Listed x xs → Listed x (xs ++ ys)
  Listed-append_left x [] ys m = elim m [ ]
  Listed-append_left x (y ∷ xs) ys (inl e) = inl e
  Listed-append_left x (y ∷ xs) ys (inr m) = inr (Listed-append_left x xs ys m)

  pub Listed-append_right : (x : A) (xs ys : List A) → Listed x ys → Listed x (xs ++ ys)
  Listed-append_right x [] ys m = m
  Listed-append_right x (y ∷ xs) ys m = inr (Listed-append_right x xs ys m)

  pub Listed-append_cases :
      (x : A) (xs ys : List A) → Listed x (xs ++ ys) → Listed x xs ⊎ Listed x ys
  Listed-append_cases x [] ys m = inr m
  Listed-append_cases x (y ∷ xs) ys (inl e) = inl (inl e)
  Listed-append_cases x (y ∷ xs) ys (inr m) = elim (Listed-append_cases x xs ys m) [
    | inl l ↦ inl (inr l)
    | inr r ↦ inr r
  ]

module _ {ℓ κ} {A : Type ℓ} where
  abbrev pub All : (A → Type κ) → List A → Type κ
  All P [] = Unit
  All P (x ∷ xs) = P x × All P xs

  pub All-append : (P : A → Type κ) (xs ys : List A) → All P xs → All P ys → All P (xs ++ ys)
  All-append P [] ys hx hy = hy
  All-append P (x ∷ xs) ys (p, hx) hy = (p, All-append P xs ys hx hy)

module _ {κ} {A : Type 0} where
  pub All-Listed : (P : A → Type κ) (x : A) (xs : List A) → All P xs → Listed x xs → P x
  All-Listed P x [] h m = elim m [ ]
  All-Listed P x (y ∷ xs) (p, h) (inl e) = rw e p
  All-Listed P x (y ∷ xs) (p, h) (inr m) = All-Listed P x xs h m

  pub All-of_Listed : (P : A → Type κ) (xs : List A) → ((x : A) → Listed x xs → P x) → All P xs
  All-of_Listed P [] h = tt
  All-of_Listed P (x ∷ xs) h = (h x (inl refl), All-of_Listed P xs (λ y m. h y (inr m)))

module _ {A B : Type 0} (f : A → B) where
  pub Listed-map : (a : A) (xs : List A) → Listed a xs → Listed (f a) (map f xs)
  Listed-map a [] m = elim m [ ]
  Listed-map a (x ∷ xs) (inl e) = inl (ap f e)
  Listed-map a (x ∷ xs) (inr m) = inr (Listed-map a xs m)

  pub Listed-map_inv :
      (b : B) (xs : List A) → Listed b (map f xs) → (a : A) × (b ≡ f a) × Listed a xs
  Listed-map_inv b [] m = elim m [ ]
  Listed-map_inv b (x ∷ xs) (inl e) = (x, e, inl refl)
  Listed-map_inv b (x ∷ xs) (inr m) = let (a, e, n) = Listed-map_inv b xs m in (a, e, inr n)

module _ {A : Type 0} where
  -- No element stands in the list twice.
  abbrev pub Once : List A → Type 0
  Once [] = Unit
  Once (x ∷ xs) = (¬ Listed x xs) × Once xs

  pub append-Once : (s : A) (ts : List A) → Once ts → ¬ Listed s ts → Once (ts ++ s ∷ [])
  append-Once s [] once new = ((λ m. elim m [ ]), tt)
  append-Once s (t ∷ ts) (first, once) new = (
    λ m. elim (Listed-append_cases t ts (s ∷ []) m) [
      | inl l ↦ first l
      | inr (inl e) ↦ new (inl (sym e))
      | inr (inr n) ↦ elim n [ ]
    ],
    append-Once s ts once (λ l. new (inr l)),
  )
