-- ===== src/Delivery/Image.antt =====
-- The words of a file, of its first page and of what follows it.
use rffe_uc_fw.Base.{
  ℕ, zero, suc, ◌+◌, ◌-◌, ◌*◌, ◌<◌, ◌≤◌, ◌≡◌, refl, ap, ◌∙◌, List, [], ◌∷◌, ◌++◌, length, get_or,
  take, drop, replicate, get_or-take, length-append, arith,
}
use rffe_uc_fw.Delivery.{word_at, padded}

get_or-drop :
    {A : Type 0} (n i : ℕ) (xs : List A) (d : A) → get_or (drop n xs) i d ≡ get_or xs (n + i) d
get_or-drop zero i xs d = ap (λ j. get_or xs j d) (omega arith)
get_or-drop (suc n) i [] d = refl
get_or-drop (suc n) i (x ∷ xs) d =
    let e : suc n + i ≡ suc (n + i) = omega arith in rw e (get_or-drop n i xs d)

get_or-replicate : {A : Type 0} (n i : ℕ) (d : A) → get_or (replicate n d) i d ≡ d
get_or-replicate zero i d = refl
get_or-replicate (suc n) zero d = refl
get_or-replicate (suc n) (suc i) d = get_or-replicate n i d

-- Behind a list stands what is read there anyway.
get_or-append :
    {A : Type 0} (n i : ℕ) (xs : List A) (d : A) → get_or (xs ++ replicate n d) i d ≡ get_or xs i d
get_or-append n i [] d = get_or-replicate n i d
get_or-append n zero (x ∷ xs) d = refl
get_or-append n (suc i) (x ∷ xs) d = get_or-append n i xs d

-- Two words with the same bytes.
same_words :
    (xs ys : List ℕ) (i j : ℕ)
    → ((c : ℕ) → c < 4 → get_or xs (4 * i + c) 0xFF ≡ get_or ys (4 * j + c) 0xFF)
    → word_at xs i ≡ word_at ys j
same_words xs ys i j same =
    let e0 : get_or xs (4 * i) 0xFF ≡ get_or ys (4 * j) 0xFF =
      ap (λ k. get_or xs k 0xFF) (omega arith)
      ∙ same 0 (omega arith)
      ∙ ap (λ k. get_or ys k 0xFF) (omega arith) in
    omega (arith, e0, same 1 (omega arith), same 2 (omega arith), same 3 (omega arith))

pub word_at-drop : (file : List ℕ) (j : ℕ) → word_at (drop 256 file) j ≡ word_at file (64 + j)
word_at-drop file j =
    same_words (drop 256 file) file j (64 + j)
      (λ c h. get_or-drop 256 (4 * j + c) file 0xFF ∙ ap (λ i. get_or file i 0xFF) (omega arith))

pub word_at-padded :
    (file : List ℕ) (j : ℕ) → j < 64 → word_at (padded (take 256 file)) j ≡ word_at file j
word_at-padded file j h = same_words (padded (take 256 file)) file j j (λ c q.
    get_or-append (256 - length (take 256 file)) (4 * j + c) (take 256 file) 0xFF
    ∙ get_or-take (4 * j + c) 256 file 0xFF (omega arith))

length-replicate : {A : Type 0} (n : ℕ) (d : A) → length (replicate n d) ≡ n
length-replicate zero d = refl
length-replicate (suc n) d = ap suc (length-replicate n d)

length-take_most : {A : Type 0} (n : ℕ) (xs : List A) → length (take n xs) ≤ n
length-take_most zero xs = omega arith
length-take_most (suc n) [] = omega arith
length-take_most (suc n) (x ∷ xs) = let h = length-take_most n xs in omega arith

pub length-padded : (file : List ℕ) → length (padded (take 256 file)) ≡ 256
length-padded file =
    let chunk = take 256 file in
    let h = length-take_most 256 file in
    length-append chunk (replicate (256 - length chunk) 0xFF)
    ∙ ap (λ n. length chunk + n) (length-replicate (256 - length chunk) 0xFF)
    ∙ omega arith

pub length-drop : {A : Type 0} (n : ℕ) (xs : List A) → length (drop n xs) ≡ length xs - n
length-drop zero xs = omega arith
length-drop (suc n) [] = omega arith
length-drop (suc n) (x ∷ xs) = length-drop n xs ∙ omega arith
