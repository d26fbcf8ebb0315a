-- ===== src/Prelude/Lists.antt =====
-- Lists measured and indexed by native numbers, under the library's names.
use Prim.Native.Nat.{ℕ, zero, suc, ◌+◌, ◌-◌, ◌<◌, ◌≤◌, min}
use mathlib.Core.Path.{◌≡◌, refl, sym, ap}
use mathlib.Core.Logic.{◌≢◌}
use mathlib.Core.List.{List, [], ◌∷◌, ◌++◌}
use mathlib.Core.Option.{Option, none, some}
use native.Mathlib.Omega.{arith}

module _ {ℓ} {A : Type ℓ} where
  abbrev pub length : List A → ℕ
  length [] = 0
  length (x ∷ xs) = suc (length xs)

  abbrev pub get_elem? : List A → ℕ → Option A
  get_elem? [] i = none
  get_elem? (x ∷ xs) zero = some x
  get_elem? (x ∷ xs) (suc i) = get_elem? xs i

  -- A write out of bounds changes nothing.
  abbrev pub set : List A → ℕ → A → List A
  set [] i v = []
  set (x ∷ xs) zero v = v ∷ xs
  set (x ∷ xs) (suc i) v = x ∷ set xs i v

  abbrev pub get_or : List A → ℕ → A → A
  get_or [] i d = d
  get_or (x ∷ xs) zero d = x
  get_or (x ∷ xs) (suc i) d = get_or xs i d

  abbrev pub take : ℕ → List A → List A
  take zero xs = []
  take (suc n) [] = []
  take (suc n) (x ∷ xs) = x ∷ take n xs

  abbrev pub drop : ℕ → List A → List A
  drop zero xs = xs
  drop (suc n) [] = []
  drop (suc n) (x ∷ xs) = drop n xs

  abbrev pub replicate : ℕ → A → List A
  replicate zero a = []
  replicate (suc n) a = a ∷ replicate n a

module _ {ℓ} {A : Type ℓ} where
  pub length-append : (xs ys : List A) → length (xs ++ ys) ≡ length xs + length ys
  length-append [] ys = omega arith
  length-append (x ∷ xs) ys = omega (arith, length-append xs ys)

  pub length-set : (xs : List A) (i : ℕ) (v : A) → length (set xs i v) ≡ length xs
  length-set [] i v = refl
  length-set (x ∷ xs) zero v = refl
  length-set (x ∷ xs) (suc i) v = ap suc (length-set xs i v)

  pub get_or-set_self :
      (xs : List A) (i : ℕ) (v d : A) → i < length xs → get_or (set xs i v) i d ≡ v
  get_or-set_self [] i v d h = absurd (omega arith)
  get_or-set_self (x ∷ xs) zero v d h = refl
  get_or-set_self (x ∷ xs) (suc i) v d h = get_or-set_self xs i v d (omega arith)

  pub get_or-set_ne :
      (xs : List A) {i j : ℕ} (v d : A) → i ≢ j → get_or (set xs i v) j d ≡ get_or xs j d
  get_or-set_ne [] v d h = refl
  get_or-set_ne (x ∷ xs) {i = zero} {j = zero} v d h = absurd (h refl)
  get_or-set_ne (x ∷ xs) {i = zero} {j = suc j} v d h = refl
  get_or-set_ne (x ∷ xs) {i = suc i} {j = zero} v d h = refl
  get_or-set_ne (x ∷ xs) {i = suc i} {j = suc j} v d h = get_or-set_ne xs v d (λ e. h (ap suc e))

  pub length-take : (n : ℕ) (xs : List A) → length (take n xs) ≡ min n (length xs)
  length-take zero xs = omega arith
  length-take (suc n) [] = omega arith
  length-take (suc n) (x ∷ xs) = omega (arith, length-take n xs)

  pub length-drop : (n : ℕ) (xs : List A) → length (drop n xs) ≡ length xs - n
  length-drop zero xs = omega arith
  length-drop (suc n) [] = omega arith
  length-drop (suc n) (x ∷ xs) = omega (arith, length-drop n xs)

  pub length-replicate : (n : ℕ) (a : A) → length (replicate n a) ≡ n
  length-replicate zero a = refl
  length-replicate (suc n) a = ap suc (length-replicate n a)

  pub drop-nil : (n : ℕ) → drop {A = A} n [] ≡ []
  drop-nil zero = refl
  drop-nil (suc n) = refl

  pub drop-drop : (m n : ℕ) (xs : List A) → drop m (drop n xs) ≡ drop (n + m) xs
  drop-drop m zero xs = let e : 0 + m ≡ m = omega arith in rw e
  drop-drop m (suc n) [] = rw drop-nil (sym (drop-nil (suc n + m)))
  drop-drop m (suc n) (x ∷ xs) =
      let e : suc n + m ≡ suc (n + m) = omega arith in rw e (drop-drop m n xs)

  -- A part of a prefix that is long enough is a part of the list.
  pub take-drop-take :
      (size from len : ℕ) (xs : List A)
      → from + size ≤ len
      → take size (drop from (take len xs)) ≡ take size (drop from xs)
  take-drop-take zero from len xs h = refl
  take-drop-take (suc size) from zero xs h = absurd (omega arith)
  take-drop-take (suc size) zero (suc len) [] h = refl
  take-drop-take (suc size) zero (suc len) (x ∷ xs) h =
      ap (λ ys. x ∷ ys) (take-drop-take size zero len xs (omega arith))
  take-drop-take (suc size) (suc from) (suc len) [] h = refl
  take-drop-take (suc size) (suc from) (suc len) (x ∷ xs) h =
      take-drop-take (suc size) from len xs (omega arith)

  pub take-append-drop : (n : ℕ) (xs : List A) → take n xs ++ drop n xs ≡ xs
  take-append-drop zero xs = refl
  take-append-drop (suc n) [] = refl
  take-append-drop (suc n) (x ∷ xs) = ap (λ ys. x ∷ ys) (take-append-drop n xs)

  -- The list with `ys` written over it from an index on; what reaches past the end is dropped.
  abbrev pub overwrite : List A → ℕ → List A → List A
  overwrite [] i ys = []
  overwrite (x ∷ xs) (suc i) ys = x ∷ overwrite xs i ys
  overwrite (x ∷ xs) zero [] = x ∷ xs
  overwrite (x ∷ xs) zero (y ∷ ys) = y ∷ overwrite xs zero ys

  pub overwrite-nil : (xs : List A) (i : ℕ) → overwrite xs i [] ≡ xs
  overwrite-nil [] i = refl
  overwrite-nil (x ∷ xs) zero = refl
  overwrite-nil (x ∷ xs) (suc i) = ap (λ zs. x ∷ zs) (overwrite-nil xs i)

  pub take-drop-overwrite :
      (xs : List A) (i : ℕ) (ys : List A)
      → i + length ys ≤ length xs
      → take (length ys) (drop i (overwrite xs i ys)) ≡ ys
  take-drop-overwrite xs i [] h = refl
  take-drop-overwrite [] i (y ∷ ys) h = absurd (omega arith)
  take-drop-overwrite (x ∷ xs) (suc i) (y ∷ ys) h = take-drop-overwrite xs i (y ∷ ys) (omega arith)
  take-drop-overwrite (x ∷ xs) zero (y ∷ ys) h =
      ap (λ zs. y ∷ zs) (take-drop-overwrite xs zero ys (omega arith))

  pub drop_all : (n : ℕ) (xs : List A) → length xs ≤ n → drop n xs ≡ []
  drop_all n [] h = drop-nil n
  drop_all zero (x ∷ xs) h = absurd (omega arith)
  drop_all (suc n) (x ∷ xs) h = drop_all n xs (omega arith)

  pub length-overwrite :
      (xs : List A) (i : ℕ) (ys : List A) → length (overwrite xs i ys) ≡ length xs
  length-overwrite [] i ys = refl
  length-overwrite (x ∷ xs) (suc i) ys = ap suc (length-overwrite xs i ys)
  length-overwrite (x ∷ xs) zero [] = refl
  length-overwrite (x ∷ xs) zero (y ∷ ys) = ap suc (length-overwrite xs zero ys)

  pub take-overwrite :
      (n : ℕ) (xs : List A) (i : ℕ) (ys : List A)
      → take n (overwrite xs i ys) ≡ overwrite (take n xs) i ys
  take-overwrite zero xs i ys = refl
  take-overwrite (suc n) [] i ys = refl
  take-overwrite (suc n) (x ∷ xs) (suc i) ys = ap (λ zs. x ∷ zs) (take-overwrite n xs i ys)
  take-overwrite (suc n) (x ∷ xs) zero [] = refl
  take-overwrite (suc n) (x ∷ xs) zero (y ∷ ys) = ap (λ zs. y ∷ zs) (take-overwrite n xs zero ys)

  pub drop-overwrite :
      (k : ℕ) (xs : List A) (i : ℕ) (ys : List A)
      → drop k (overwrite xs (k + i) ys) ≡ overwrite (drop k xs) i ys
  drop-overwrite zero xs i ys = let e : 0 + i ≡ i = omega arith in rw e
  drop-overwrite (suc k) [] i ys = refl
  drop-overwrite (suc k) (x ∷ xs) i ys =
      let e : suc k + i ≡ suc (k + i) = omega arith in rw e (drop-overwrite k xs i ys)

  -- What stands behind the part that is written over stays.
  pub drop-overwrite_ge :
      (n : ℕ) (xs : List A) (i : ℕ) (ys : List A)
      → i + length ys ≤ n
      → drop n (overwrite xs i ys) ≡ drop n xs
  drop-overwrite_ge n [] i ys h = refl
  drop-overwrite_ge n (x ∷ xs) zero [] h = refl
  drop-overwrite_ge zero (x ∷ xs) zero (y ∷ ys) h = absurd (omega arith)
  drop-overwrite_ge (suc n) (x ∷ xs) zero (y ∷ ys) h = drop-overwrite_ge n xs zero ys (omega arith)
  drop-overwrite_ge zero (x ∷ xs) (suc i) ys h = absurd (omega arith)
  drop-overwrite_ge (suc n) (x ∷ xs) (suc i) ys h = drop-overwrite_ge n xs i ys (omega arith)
