-- ===== src/Prelude/Parts.antt =====
-- Parts of lists: what `take` and `drop` leave.
use Prim.Native.Nat.{ℕ, zero, suc, ◌+◌, ◌-◌, ◌≤◌}
use mathlib.Core.Path.{◌≡◌, refl, ap, sym}
use mathlib.Core.List.{List, [], ◌∷◌, ◌++◌}
use native.Mathlib.Omega.{arith}
use acebase.Prelude.Lists.{length, take, drop}

pub zero_plus : (n : ℕ) → 0 + n ≡ n
zero_plus n = omega arith

pub drop-drop {ℓ} : {A : Type ℓ} (m n : ℕ) (xs : List A) → drop m (drop n xs) ≡ drop (n + m) xs
drop-drop m zero xs = rw zero_plus refl
drop-drop zero (suc n) [] = let e : suc n + 0 ≡ suc n = omega arith in rw e refl
drop-drop (suc m) (suc n) [] = let e : suc n + suc m ≡ suc (n + suc m) = omega arith in rw e refl
drop-drop m (suc n) (x ∷ xs) =
    let e : suc n + m ≡ suc (n + m) = omega arith in rw e (drop-drop m n xs)

pub drop_all {ℓ} : {A : Type ℓ} (m : ℕ) (xs : List A) → length xs ≤ m → drop m xs ≡ []
drop_all zero [] h = refl
drop_all (suc m) [] h = refl
drop_all zero (x ∷ xs) h = absurd (omega arith)
drop_all (suc m) (x ∷ xs) h = drop_all m xs (omega arith)

pub take-take_le {ℓ} : {A : Type ℓ} (n m : ℕ) (xs : List A) → n ≤ m → take n (take m xs) ≡ take n xs
take-take_le zero m xs h = refl
take-take_le (suc n) zero xs h = absurd (omega arith)
take-take_le (suc n) (suc m) [] h = refl
take-take_le (suc n) (suc m) (x ∷ xs) h = ap (◌∷◌ x) (take-take_le n m xs (omega arith))

take-nil {ℓ} : (A : Type ℓ) (k : ℕ) → take {A = A} k [] ≡ []
take-nil A zero = refl
take-nil A (suc k) = refl

pub drop-take {ℓ} :
    {A : Type ℓ} (n m : ℕ) (xs : List A) → drop n (take m xs) ≡ take (m - n) (drop n xs)
drop-take zero m xs = let e : m - 0 ≡ m = omega arith in rw e refl
drop-take (suc n) zero xs = let e : 0 - suc n ≡ 0 = omega arith in rw e refl
drop-take {A} (suc n) (suc m) [] =
    let e : suc m - suc n ≡ m - n = omega arith in rw e (sym (take-nil A (m - n)))
drop-take (suc n) (suc m) (x ∷ xs) =
    let e : suc m - suc n ≡ m - n = omega arith in rw e (drop-take n m xs)

pub take-add {ℓ} :
    {A : Type ℓ} (n m : ℕ) (xs : List A) → take n xs ++ take m (drop n xs) ≡ take (n + m) xs
take-add zero m xs = rw zero_plus refl
take-add (suc n) zero [] = let e : suc n + 0 ≡ suc (n + 0) = omega arith in rw e refl
take-add (suc n) (suc m) [] = let e : suc n + suc m ≡ suc (n + suc m) = omega arith in rw e refl
take-add (suc n) m (x ∷ xs) =
    let e : suc n + m ≡ suc (n + m) = omega arith in rw e (ap (◌∷◌ x) (take-add n m xs))

-- A part is known by its length.
pub take-length_take {ℓ} :
    {A : Type ℓ} (n : ℕ) (xs : List A) → take n xs ≡ take (length (take n xs)) xs
take-length_take zero xs = refl
take-length_take (suc n) [] = refl
take-length_take (suc n) (x ∷ xs) = ap (◌∷◌ x) (take-length_take n xs)
