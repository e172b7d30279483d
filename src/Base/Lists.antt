-- ===== src/Base/Lists.antt =====
-- Byte buffers as lists with native indices: reading and overwriting a range.
use Prim.Native.Nat.{ℕ, zero, suc, ◌+◌, ◌≤◌}
use mathlib.Core.Path.{◌≡◌, refl, ap, sym, ◌∙◌}
use mathlib.Core.List.{List, [], ◌∷◌, ◌++◌}
use native.Mathlib.Omega.{arith}

module _ {ℓ} {A : Type ℓ} where
  abbrev pub length : List A → ℕ
  length [] = 0
  length (x ∷ xs) = suc (length xs)

  abbrev pub take : ℕ → List A → List A
  take zero xs = []
  take (suc n) [] = []
  take (suc n) (x ∷ xs) = x ∷ take n xs

  abbrev pub drop : ℕ → List A → List A
  drop zero xs = xs
  drop (suc n) [] = []
  drop (suc n) (x ∷ xs) = drop n xs

  abbrev pub get_or : List A → ℕ → A → A
  get_or [] i d = d
  get_or (x ∷ xs) zero d = x
  get_or (x ∷ xs) (suc i) d = get_or xs i d

  abbrev pub replicate : ℕ → A → List A
  replicate zero a = []
  replicate (suc n) a = a ∷ replicate n a

  -- The range `[off, off + n)`.
  abbrev pub slice : ℕ → ℕ → List A → List A
  slice off n xs = take n (drop off xs)

  -- `ys` written over the first elements of `xs`, which keeps its length.
  abbrev pub overlay : List A → List A → List A
  overlay ys [] = []
  overlay [] (x ∷ xs) = x ∷ xs
  overlay (y ∷ ys) (x ∷ xs) = y ∷ overlay ys xs

  -- `ys` written over the range that begins at `off`.
  abbrev pub splice : ℕ → List A → List A → List A
  splice zero ys xs = overlay ys xs
  splice (suc off) ys [] = []
  splice (suc off) ys (x ∷ xs) = x ∷ splice off ys xs

module _ {ℓ} {A : Type ℓ} where
  pub length-overlay : (ys xs : List A) → length (overlay ys xs) ≡ length xs
  length-overlay [] [] = refl
  length-overlay (y ∷ ys) [] = refl
  length-overlay [] (x ∷ xs) = refl
  length-overlay (y ∷ ys) (x ∷ xs) = ap suc (length-overlay ys xs)

  pub length-append : (xs ys : List A) → length (xs ++ ys) ≡ length xs + length ys
  length-append [] ys = omega arith
  length-append (x ∷ xs) ys = ap suc (length-append xs ys) ∙ omega arith

  pub length-splice : (off : ℕ) (ys xs : List A) → length (splice off ys xs) ≡ length xs
  length-splice zero ys xs = length-overlay ys xs
  length-splice (suc off) ys [] = refl
  length-splice (suc off) ys (x ∷ xs) = ap suc (length-splice off ys xs)

  take-overlay : (ys xs : List A) → length ys ≤ length xs → take (length ys) (overlay ys xs) ≡ ys
  take-overlay [] [] h = refl
  take-overlay [] (x ∷ xs) h = refl
  take-overlay (y ∷ ys) [] h = absurd (omega arith)
  take-overlay (y ∷ ys) (x ∷ xs) h = ap (λ t. y ∷ t) (take-overlay ys xs (omega arith))

  -- What was written is read back.
  pub slice-splice_self :
      (off : ℕ) (ys xs : List A)
      → off + length ys ≤ length xs
      → slice off (length ys) (splice off ys xs) ≡ ys
  slice-splice_self zero ys xs h = take-overlay ys xs (omega arith)
  slice-splice_self (suc off) ys [] h = absurd (omega arith)
  slice-splice_self (suc off) ys (x ∷ xs) h = slice-splice_self off ys xs (omega arith)

  take-nil : (n : ℕ) → take {A = A} n [] ≡ []
  take-nil zero = refl
  take-nil (suc n) = refl

  drop-overlay : (n : ℕ) (ys xs : List A) → length ys ≤ n → drop n (overlay ys xs) ≡ drop n xs
  drop-overlay zero [] [] h = refl
  drop-overlay zero [] (x ∷ xs) h = refl
  drop-overlay zero (y ∷ ys) xs h = absurd (omega arith)
  drop-overlay (suc n) [] [] h = refl
  drop-overlay (suc n) [] (x ∷ xs) h = refl
  drop-overlay (suc n) (y ∷ ys) [] h = refl
  drop-overlay (suc n) (y ∷ ys) (x ∷ xs) h = drop-overlay n ys xs (omega arith)

  -- A range behind the written one is as before.
  pub slice-splice_after :
      (off at n : ℕ) (ys xs : List A)
      → off + length ys ≤ at
      → slice at n (splice off ys xs) ≡ slice at n xs
  slice-splice_after zero at n ys xs h = ap (take n) (drop-overlay at ys xs (omega arith))
  slice-splice_after (suc off) at n ys [] h = refl
  slice-splice_after (suc off) zero n ys (x ∷ xs) h = absurd (omega arith)
  slice-splice_after (suc off) (suc at) n ys (x ∷ xs) h =
      slice-splice_after off at n ys xs (omega arith)

  take-splice : (off n : ℕ) (ys xs : List A) → n ≤ off → take n (splice off ys xs) ≡ take n xs
  take-splice off zero ys xs h = refl
  take-splice zero (suc n) ys xs h = absurd (omega arith)
  take-splice (suc off) (suc n) ys [] h = refl
  take-splice (suc off) (suc n) ys (x ∷ xs) h =
      ap (λ t. x ∷ t) (take-splice off n ys xs (omega arith))

  -- A range before the written one is as before.
  pub slice-splice_before :
      (off at n : ℕ) (ys xs : List A) → at + n ≤ off → slice at n (splice off ys xs) ≡ slice at n xs
  slice-splice_before off zero n ys xs h = take-splice off n ys xs (omega arith)
  slice-splice_before zero (suc at) n ys xs h = absurd (omega arith)
  slice-splice_before (suc off) (suc at) n ys [] h = refl
  slice-splice_before (suc off) (suc at) n ys (x ∷ xs) h =
      slice-splice_before off at n ys xs (omega arith)

  pub length-slice : (off n : ℕ) (xs : List A) → off + n ≤ length xs → length (slice off n xs) ≡ n
  length-slice zero zero xs h = refl
  length-slice zero (suc n) [] h = absurd (omega arith)
  length-slice zero (suc n) (x ∷ xs) h = ap suc (length-slice zero n xs (omega arith))
  length-slice (suc off) n [] h = absurd (omega arith)
  length-slice (suc off) n (x ∷ xs) h = length-slice off n xs (omega arith)

  pub overlay_full : (ys xs : List A) → length xs ≡ length ys → overlay ys xs ≡ ys
  overlay_full [] [] h = refl
  overlay_full [] (x ∷ xs) h = absurd (omega arith)
  overlay_full (y ∷ ys) [] h = absurd (omega arith)
  overlay_full (y ∷ ys) (x ∷ xs) h = ap (λ t. y ∷ t) (overlay_full ys xs (omega arith))

  -- A range within what was written at the start.
  pub slice-overlay_within :
      (off n : ℕ) (ys xs : List A)
      → off + n ≤ length ys
      → length ys ≤ length xs
      → slice off n (overlay ys xs) ≡ slice off n ys
  slice-overlay_within zero zero ys xs h k = refl
  slice-overlay_within zero (suc n) [] xs h k = absurd (omega arith)
  slice-overlay_within zero (suc n) (y ∷ ys) [] h k = absurd (omega arith)
  slice-overlay_within zero (suc n) (y ∷ ys) (x ∷ xs) h k =
      ap (λ t. y ∷ t) (slice-overlay_within zero n ys xs (omega arith) (omega arith))
  slice-overlay_within (suc off) n [] xs h k = absurd (omega arith)
  slice-overlay_within (suc off) n (y ∷ ys) [] h k = absurd (omega arith)
  slice-overlay_within (suc off) n (y ∷ ys) (x ∷ xs) h k =
      slice-overlay_within off n ys xs (omega arith) (omega arith)

  -- A range of the first `m` elements.
  pub slice-take :
      (off n m : ℕ) (xs : List A) → off + n ≤ m → slice off n (take m xs) ≡ slice off n xs
  slice-take zero zero m xs h = refl
  slice-take zero (suc n) zero xs h = absurd (omega arith)
  slice-take zero (suc n) (suc m) [] h = refl
  slice-take zero (suc n) (suc m) (x ∷ xs) h =
      ap (λ t. x ∷ t) (slice-take zero n m xs (omega arith))
  slice-take (suc off) n zero xs h = absurd (omega arith)
  slice-take (suc off) n (suc m) [] h = refl
  slice-take (suc off) n (suc m) (x ∷ xs) h = slice-take off n m xs (omega arith)

  -- The same range, element by element.
  abbrev pub elems_at : A → ℕ → ℕ → List A → List A
  elems_at d off zero xs = []
  elems_at d off (suc n) xs = get_or xs off d ∷ elems_at d (1 + off) n xs

  elems_at-cons :
      (d : A) (off n : ℕ) (x : A) (xs : List A)
      → elems_at d (suc off) n (x ∷ xs) ≡ elems_at d off n xs
  elems_at-cons d off zero x xs = refl
  elems_at-cons d off (suc n) x xs =
      let e : 1 + suc off ≡ suc (1 + off) = omega arith in
      rw e (ap (λ t. get_or xs off d ∷ t) (elems_at-cons d (1 + off) n x xs))

  pub elems_at-eq-slice :
      (d : A) (off n : ℕ) (xs : List A) → off + n ≤ length xs → elems_at d off n xs ≡ slice off n xs
  elems_at-eq-slice d off zero xs h = sym (take_zero off xs)
    where
      take_zero : (off : ℕ) (xs : List A) → take 0 (drop off xs) ≡ []
      take_zero off xs = refl
  elems_at-eq-slice d off (suc n) [] h = absurd (omega arith)
  elems_at-eq-slice d zero (suc n) (x ∷ xs) h =
      ap (λ t. x ∷ t) (elems_at-cons d 0 n x xs ∙ elems_at-eq-slice d 0 n xs (omega arith))
  elems_at-eq-slice d (suc off) (suc n) (x ∷ xs) h =
      elems_at-cons d off (suc n) x xs ∙ elems_at-eq-slice d off (suc n) xs (omega arith)

  pub get_or-take :
      (i n : ℕ) (xs : List A) (d : A) → suc i ≤ n → get_or (take n xs) i d ≡ get_or xs i d
  get_or-take i zero xs d h = absurd (omega arith)
  get_or-take i (suc n) [] d h = refl
  get_or-take zero (suc n) (x ∷ xs) d h = refl
  get_or-take (suc i) (suc n) (x ∷ xs) d h = get_or-take i n xs d (omega arith)

  pub slice_one :
      (i : ℕ) (xs : List A) (d : A) → suc i ≤ length xs → slice i 1 xs ≡ get_or xs i d ∷ []
  slice_one i [] d h = absurd (omega arith)
  slice_one zero (x ∷ xs) d h = refl
  slice_one (suc i) (x ∷ xs) d h = slice_one i xs d (omega arith)

  overlay-take : (n : ℕ) (xs : List A) → overlay (take n xs) xs ≡ xs
  overlay-take zero [] = refl
  overlay-take zero (x ∷ xs) = refl
  overlay-take (suc n) [] = refl
  overlay-take (suc n) (x ∷ xs) = ap (λ t. x ∷ t) (overlay-take n xs)

  -- Writing back what is there changes nothing.
  pub splice-slice_self : (off n : ℕ) (xs : List A) → splice off (slice off n xs) xs ≡ xs
  splice-slice_self zero n xs = overlay-take n xs
  splice-slice_self (suc off) n [] = refl
  splice-slice_self (suc off) n (x ∷ xs) = ap (λ t. x ∷ t) (splice-slice_self off n xs)
