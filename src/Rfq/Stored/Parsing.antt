-- ===== src/Rfq/Stored/Parsing.antt =====
-- Reading with functions that may throw: `none` is the exception.
use mathlib.Core.Option
use derive_docs.Base.{◌≡◌, refl, List, [], ◌∷◌, map, some, none, Option}

-- A parse that throws is `none`.
infixl 5 ◌>>=◌
abbrev pub ◌>>=◌ : {A B : Type 0} → Option A → (A → Option B) → Option B
none >>= f = none
some a >>= f = f a

-- `x ? f(x) : null`
abbrev pub traverse : {A B : Type 0} → (A → Option B) → Option A → Option (Option B)
traverse f none = some none
traverse f (some a) = Option.map some (f a)

-- `xs.map(f)` with an `f` that may throw.
abbrev pub traverse_list : {A B : Type 0} → (A → Option B) → List A → Option (List B)
traverse_list f [] = some []
traverse_list f (x ∷ xs) = do y ← f x; ys ← traverse_list f xs; some (y ∷ ys)

-- What `g` prints and `f` reads back comes through the two traversals.
pub traverse-map :
    {A B : Type 0} (f : B → Option A) (g : A → B) (o : Option A)
    → ((a : A) → f (g a) ≡ some a)
    → traverse f (Option.map g o) ≡ some o
traverse-map f g none h = refl
traverse-map f g (some a) h = rw (h a)

pub traverse_list-map :
    {A B : Type 0} (f : B → Option A) (g : A → B) (xs : List A)
    → ((a : A) → f (g a) ≡ some a)
    → traverse_list f (map g xs) ≡ some xs
traverse_list-map f g [] h = refl
traverse_list-map f g (a ∷ xs) h = rw (h a, traverse_list-map f g xs h)

pub >>=-some : {A : Type 0} (o : Option A) → (o >>= λ a. some a) ≡ o
>>=-some none = refl
>>=-some (some a) = refl
