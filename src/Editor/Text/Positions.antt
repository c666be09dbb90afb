-- ===== src/Editor/Text/Positions.antt =====
-- Putting in, setting and removing an element of a list, which is what the commands of
-- src/zc_source_editor.h do to the lines.
use zealos_aarch64_bringup.Base.{
  ℕ, zero, suc, ◌<◌, ◌≡◌, refl, List, [], ◌∷◌, ◌++◌, arith, length, append-nil, ap, ◌∙◌, sym,
}

-- `n` elements stand before the place.
abbrev pub insert_at {ℓ} : {A : Type ℓ} → ℕ → A → List A → List A
insert_at zero x xs = x ∷ xs
insert_at (suc n) x [] = x ∷ []
insert_at (suc n) x (y ∷ ys) = y ∷ insert_at n x ys

abbrev pub set_at {ℓ} : {A : Type ℓ} → ℕ → A → List A → List A
set_at n x [] = []
set_at zero x (y ∷ ys) = x ∷ ys
set_at (suc n) x (y ∷ ys) = y ∷ set_at n x ys

abbrev pub remove_at {ℓ} : {A : Type ℓ} → ℕ → List A → List A
remove_at n [] = []
remove_at zero (y ∷ ys) = ys
remove_at (suc n) (y ∷ ys) = y ∷ remove_at n ys

pub insert_at-append {ℓ} :
    {A : Type ℓ} → (xs bs : List A) (x : A) → insert_at (length xs) x (xs ++ bs) ≡ xs ++ x ∷ bs
insert_at-append [] bs x = refl
insert_at-append (a ∷ xs) bs x = ap (λ r. a ∷ r) (insert_at-append xs bs x)

-- Behind the last element.
pub insert_at_end {ℓ} :
    {A : Type ℓ} → (xs : List A) (n : ℕ) (x : A) → length xs ≡ n → insert_at n x xs ≡ xs ++ x ∷ []
insert_at_end xs n x e =
    ap (λ k. insert_at k x xs) (sym e)
    ∙ ap (insert_at (length xs) x) (sym (append-nil xs))
    ∙ insert_at-append xs [] x

pub length-insert_at {ℓ} :
    {A : Type ℓ} → (n : ℕ) (x : A) (xs : List A) → length (insert_at n x xs) ≡ suc (length xs)
length-insert_at zero x xs = refl
length-insert_at (suc n) x [] = refl
length-insert_at (suc n) x (y ∷ ys) = ap suc (length-insert_at n x ys)

pub length-set_at {ℓ} :
    {A : Type ℓ} → (n : ℕ) (x : A) (xs : List A) → length (set_at n x xs) ≡ length xs
length-set_at n x [] = refl
length-set_at zero x (y ∷ ys) = refl
length-set_at (suc n) x (y ∷ ys) = ap suc (length-set_at n x ys)

pub length-remove_at {ℓ} :
    {A : Type ℓ} → (n : ℕ) (xs : List A) → n < length xs → suc (length (remove_at n xs)) ≡ length xs
length-remove_at n [] lt = absurd (omega arith)
length-remove_at zero (y ∷ ys) lt = refl
length-remove_at (suc n) (y ∷ ys) lt = ap suc (length-remove_at n ys (omega arith))

pub set_at-append {ℓ} :
    {A : Type ℓ} → (xs bs : List A) (x y : A) → set_at (length xs) x (xs ++ y ∷ bs) ≡ xs ++ x ∷ bs
set_at-append [] bs x y = refl
set_at-append (a ∷ xs) bs x y = ap (λ r. a ∷ r) (set_at-append xs bs x y)

pub remove_at-append {ℓ} :
    {A : Type ℓ} → (xs bs : List A) (y : A) → remove_at (length xs) (xs ++ y ∷ bs) ≡ xs ++ bs
remove_at-append [] bs y = refl
remove_at-append (a ∷ xs) bs y = ap (λ r. a ∷ r) (remove_at-append xs bs y)
