-- ===== src/Prelude/Lists.antt =====
-- Lists searched, counted and rewritten by a Boolean test, as the source's array methods and the
-- tables' queries do.
use Prim.Native.Nat.{ℕ, zero, suc, ◌+◌, ◌≤◌, ◌<◌}
use mathlib.Core.Path.{◌≡◌, refl}
use mathlib.Core.Bool.{Bool, true, false, ◌||◌, ◌&&◌}
use mathlib.Core.Option
use mathlib.Core.Option.{Option, none, some}
use mathlib.Core.List.{List, [], ◌∷◌, ◌++◌}
use native.Mathlib.Omega.{arith}
use code_host.Prelude.Tests.{if◌then◌else◌}

module _ {ℓ} {A : Type ℓ} where
  abbrev pub length : List A → ℕ
  length [] = 0
  length (x ∷ xs) = suc (length xs)

  -- `xs.find(p)`
  abbrev pub find? : (A → Bool) → List A → Option A
  find? p [] = none
  find? p (x ∷ xs) = if p x then some x else find? p xs

  -- `xs.some(p)`
  abbrev pub any : (A → Bool) → List A → Bool
  any p [] = false
  any p (x ∷ xs) = p x || any p xs

  -- `xs.every(p)`
  abbrev pub all : (A → Bool) → List A → Bool
  all p [] = true
  all p (x ∷ xs) = p x && all p xs

  abbrev pub count : (A → Bool) → List A → ℕ
  count p [] = 0
  count p (x ∷ xs) = if p x then suc (count p xs) else count p xs

  -- `xs.filter(p)`
  abbrev pub keep : (A → Bool) → List A → List A
  keep p [] = []
  keep p (x ∷ xs) = if p x then x ∷ keep p xs else keep p xs

  -- `xs.slice(0, n)`, and an SQL `limit n`.
  abbrev pub take : ℕ → List A → List A
  take zero xs = []
  take (suc n) [] = []
  take (suc n) (x ∷ xs) = x ∷ take n xs

  -- `xs.slice(n)`
  abbrev pub drop : ℕ → List A → List A
  drop zero xs = xs
  drop (suc n) [] = []
  drop (suc n) (x ∷ xs) = drop n xs

  -- An SQL `update … set f where p`.
  abbrev pub update : (A → Bool) → (A → A) → List A → List A
  update p f [] = []
  update p f (x ∷ xs) = (if p x then f x else x) ∷ update p f xs

  -- A predicate by recursion.
  abbrev pub All {κ} : (A → Type κ) → List A → Type κ
  All P [] = Unit
  All P (x ∷ xs) = P x × All P xs

module _ {ℓ} {A : Type ℓ} (p : A → Bool) where
  pub any-append : (xs ys : List A) → any p (xs ++ ys) ≡ (any p xs || any p ys)
  any-append [] ys = refl
  any-append (x ∷ xs) ys = ground (arith, any-append xs ys)

  pub count-append : (xs ys : List A) → count p (xs ++ ys) ≡ count p xs + count p ys
  count-append [] ys = omega arith
  count-append (x ∷ xs) ys = ground (arith, count-append xs ys)

  pub find?-append : (xs ys : List A) → find? p xs ≡ none → find? p (xs ++ ys) ≡ find? p ys
  find?-append [] ys h = refl
  find?-append (x ∷ xs) ys h = ground (arith, find?-append xs ys)

  pub find?-append_some :
      (xs ys : List A) {a : A} → find? p xs ≡ some a → find? p (xs ++ ys) ≡ some a
  find?-append_some [] ys {a} h = ground arith
  find?-append_some (x ∷ xs) ys {a} h = ground (arith, find?-append_some xs ys {a = a})

  -- What a search finds passes its test.
  pub find?-holds : (xs : List A) {a : A} → find? p xs ≡ some a → p a ≡ true
  find?-holds [] h = ground arith
  find?-holds (x ∷ xs) {a} h = ground (arith, find?-holds xs {a = a})

  pub find?-none-any : (xs : List A) → find? p xs ≡ none → any p xs ≡ false
  find?-none-any [] h = refl
  find?-none-any (x ∷ xs) h = ground (arith, find?-none-any xs)

  pub any-false-find? : (xs : List A) → any p xs ≡ false → find? p xs ≡ none
  any-false-find? [] h = refl
  any-false-find? (x ∷ xs) h = ground (arith, any-false-find? xs)

  pub find?-some-any : (xs : List A) {a : A} → find? p xs ≡ some a → any p xs ≡ true
  find?-some-any [] h = ground arith
  find?-some-any (x ∷ xs) {a} h = ground (arith, find?-some-any xs {a = a})

  pub count-pos_of_find? : (xs : List A) {a : A} → find? p xs ≡ some a → 1 ≤ count p xs
  count-pos_of_find? [] h = ground arith
  count-pos_of_find? (x ∷ xs) {a} h = ground (arith, count-pos_of_find? xs {a = a})

  -- An update that leaves the search's test alone acts on what is found.
  module _ (q : A → Bool) (f : A → A) (same : (a : A) → q a ≡ true → p (f a) ≡ p a) where
    pub find?-update :
        (xs : List A)
        → find? p (update q f xs) ≡ Option.map (λ a. if q a then f a else a) (find? p xs)
    find?-update [] = refl
    find?-update (x ∷ xs) = ground (arith, same x, find?-update xs)

    pub count-update : (xs : List A) → count p (update q f xs) ≡ count p xs
    count-update [] = refl
    count-update (x ∷ xs) = ground (arith, same x, count-update xs)

    pub any-update : (xs : List A) → any p (update q f xs) ≡ any p xs
    any-update [] = refl
    any-update (x ∷ xs) = ground (arith, same x, any-update xs)

module _ {ℓ} {A : Type ℓ} where
  take-nil : (n : ℕ) → take {A = A} n [] ≡ []
  take-nil zero = refl
  take-nil (suc n) = refl

  take-suc : (k n : ℕ) (x : A) (xs : List A) → k ≡ suc n → take k (x ∷ xs) ≡ x ∷ take n xs
  take-suc zero n x xs h = ground arith
  take-suc (suc k) n x xs h = ground arith

  pub take-add : (m n : ℕ) (xs : List A) → take m xs ++ take n (drop m xs) ≡ take (m + n) xs
  take-add zero n xs = ground arith
  take-add (suc m) zero [] = ground arith
  take-add (suc m) (suc n) [] = ground (arith, take-nil (suc m + suc n))
  take-add (suc m) n (x ∷ xs) =
      let moved : suc m + n ≡ suc (m + n) = omega arith in
      ground (arith, take-add m n xs, take-suc (suc m + n) (m + n) x xs moved)

  -- What is short of `n` elements is the end of the list.
  pub take-short :
      (m n j : ℕ) (xs : List A)
      → length (take n (drop m xs)) < n
      → take (m + (n + j)) xs ≡ take (m + n) xs
  take-short zero zero j xs h = ground arith
  take-short zero (suc n) j [] h = ground (arith, take-nil (suc n + j))
  take-short zero (suc n) j (x ∷ xs) h =
      let moved : zero + (suc n + j) ≡ suc (zero + (n + j)) = omega arith in
      let kept : zero + suc n ≡ suc (zero + n) = omega arith in
      ground (
        arith,
        take-short zero n j xs,
        take-suc (zero + (suc n + j)) (zero + (n + j)) x xs moved,
        take-suc (zero + suc n) (zero + n) x xs kept,
      )
  take-short (suc m) zero j [] h = ground arith
  take-short (suc m) (suc n) j [] h =
      ground (arith, take-nil (suc m + (suc n + j)), take-nil (suc m + suc n))
  take-short (suc m) n j (x ∷ xs) h =
      let moved : suc m + (n + j) ≡ suc (m + (n + j)) = omega arith in
      let kept : suc m + n ≡ suc (m + n) = omega arith in
      ground (
        arith,
        take-short m n j xs,
        take-suc (suc m + (n + j)) (m + (n + j)) x xs moved,
        take-suc (suc m + n) (m + n) x xs kept,
      )

  pub take-all : (n : ℕ) (xs : List A) → length xs ≤ n → take n xs ≡ xs
  take-all zero [] h = refl
  take-all zero (x ∷ xs) h = ground arith
  take-all (suc n) [] h = refl
  take-all (suc n) (x ∷ xs) h = ground (arith, take-all n xs)
