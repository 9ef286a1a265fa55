-- ===== src/Errors.antt =====
-- Go's `error` values: package errors, what fmt.Errorf wraps with %w, and errors.Join; and the
-- test errors.Is, which walks the tree.
use goga.Prelude.{Option, none, some, List, [], ◌∷◌, ◌≡◌, refl, Bool, ◌||◌, String, ◌⊎◌, inl, inr}

-- `E` holds the package's own error values and types. A message is kept only where the code
-- prefixes it with fixed text.
pub data Error {ℓ} (E : Type ℓ) : Type ℓ where
  raw : E → Error E
  wrap : String → Error E → Error E
  join : Error E → Error E → Error E

-- errors.Is with a target that the leaf errors of `test` match.
unfoldable pub is {ℓ} : {E : Type ℓ} → (E → Bool) → Error E → Bool
is test (raw e) = test e
is test (wrap message e) = is test e
is test (join a b) = is test a || is test b

pub data Result {ℓ κ} (E : Type ℓ) (A : Type κ) : Type (ℓ ⊔ κ) where
  ok : A → Result E A
  err : Error E → Result E A

infixl 5 ◌>>=◌
abbrev pub ◌>>=◌ {ℓ κ μ} :
    {E : Type ℓ} {A : Type κ} {B : Type μ} → Result E A → (A → Result E B) → Result E B
ok a >>= f = f a
err e >>= f = err e

-- `if err != nil { return fmt.Errorf(message + ": %w", err) }`
abbrev pub within {ℓ κ} : {E : Type ℓ} {A : Type κ} → String → Result E A → Result E A
within message (ok a) = ok a
within message (err e) = err (wrap message e)

pub Result-cases {ℓ κ} :
    {E : Type ℓ} {A : Type κ} (r : Result E A)
    → ((a : A) × (r ≡ ok a)) ⊎ ((e : Error E) × (r ≡ err e))
Result-cases (ok a) = inl (a, refl)
Result-cases (err e) = inr (e, refl)

-- Inversion of a bind that succeeds.
pub bind-ok {ℓ κ μ} :
    {E : Type ℓ} {A : Type κ} {B : Type μ} (m : Result E A) (f : A → Result E B) {b : B}
    → (m >>= f) ≡ ok b
    → (a : A) × (m ≡ ok a) × (f a ≡ ok b)
bind-ok (ok a) f h = (a, refl, h)
bind-ok (err e) f h = cc

-- An error of one package among those of another that passes it on
unfoldable pub map_error {ℓ κ} : {E : Type ℓ} {F : Type κ} → (E → F) → Error E → Error F
map_error f (raw e) = raw (f e)
map_error f (wrap message e) = wrap message (map_error f e)
map_error f (join a b) = join (map_error f a) (map_error f b)

abbrev pub map_result {ℓ κ μ} :
    {E : Type ℓ} {F : Type κ} {A : Type μ} → (E → F) → Result E A → Result F A
map_result f (ok a) = ok a
map_result f (err e) = err (map_error f e)

-- errors.Join of an error and others, of which some may be nil
unfoldable pub join_with {ℓ} : {E : Type ℓ} → Error E → List (Option (Error E)) → Error E
join_with e [] = e
join_with e (none ∷ es) = join_with e es
join_with e (some f ∷ es) = join e (join_with f es)
