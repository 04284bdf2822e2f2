-- ===== src/Base/Lists.antt =====
-- Lists measured and indexed by native numbers: the model of `std::vector`.
use Prim.Native.Nat.{ℕ, zero, suc, ◌+◌, ◌-◌, ◌<◌, ◌≤◌, min}
use Prim.Native.Nat.add
use mathlib.Core.Path.{◌≡◌, refl, sym, ap, ◌∙◌}
use mathlib.Core.Logic.{◌≢◌}
use mathlib.Core.List.{List, [], ◌∷◌, ◌++◌}
use mathlib.Core.Option.{Option, none, some}
use native.Mathlib.Omega.{arith}

module _ {ℓ} {A : Type ℓ} where
  abbrev pub length : List A → ℕ
  length [] = 0
  length (x ∷ xs) = suc (length xs)

  abbrev pub get_elem? : List A → ℕ → Option A
  get_elem? [] i = none
  get_elem? (x ∷ xs) zero = some x
  get_elem? (x ∷ xs) (suc i) = get_elem? xs i

  -- A read out of bounds gives the default.
  abbrev pub get_or : List A → ℕ → A → A
  get_or [] i d = d
  get_or (x ∷ xs) zero d = x
  get_or (x ∷ xs) (suc i) d = get_or xs i d

  -- A write out of bounds changes nothing.
  abbrev pub set : List A → ℕ → A → List A
  set [] i v = []
  set (x ∷ xs) zero v = v ∷ xs
  set (x ∷ xs) (suc i) v = x ∷ set xs i v

  abbrev pub take : ℕ → List A → List A
  take zero xs = []
  take (suc n) [] = []
  take (suc n) (x ∷ xs) = x ∷ take n xs

  abbrev pub drop : ℕ → List A → List A
  drop zero xs = xs
  drop (suc n) [] = []
  drop (suc n) (x ∷ xs) = drop n xs

  abbrev pub replicate : ℕ → A → List A
  replicate zero a = []
  replicate (suc n) a = a ∷ replicate n a

  -- `v.resize(n, d)`
  abbrev pub resize : ℕ → A → List A → List A
  resize zero d xs = []
  resize (suc n) d [] = d ∷ resize n d []
  resize (suc n) d (x ∷ xs) = x ∷ resize n d xs

  pub length-append : (xs ys : List A) → length (xs ++ ys) ≡ length xs + length ys
  length-append [] ys = omega arith
  length-append (x ∷ xs) ys = omega (arith, length-append xs ys)

  pub length-set : (xs : List A) (i : ℕ) (v : A) → length (set xs i v) ≡ length xs
  length-set [] i v = refl
  length-set (x ∷ xs) zero v = refl
  length-set (x ∷ xs) (suc i) v = ap suc (length-set xs i v)

  pub length-resize : (n : ℕ) (d : A) (xs : List A) → length (resize n d xs) ≡ n
  length-resize zero d xs = refl
  length-resize (suc n) d [] = ap suc (length-resize n d [])
  length-resize (suc n) d (x ∷ xs) = ap suc (length-resize n d xs)

  pub length-replicate : (n : ℕ) (a : A) → length (replicate n a) ≡ n
  length-replicate zero a = refl
  length-replicate (suc n) a = ap suc (length-replicate n a)

  pub length-take : (n : ℕ) (xs : List A) → length (take n xs) ≡ min n (length xs)
  length-take zero xs = omega arith
  length-take (suc n) [] = omega arith
  length-take (suc n) (x ∷ xs) = omega (arith, length-take n xs)

  pub length-drop : (n : ℕ) (xs : List A) → length (drop n xs) ≡ length xs - n
  length-drop zero xs = omega arith
  length-drop (suc n) [] = omega arith
  length-drop (suc n) (x ∷ xs) = omega (arith, length-drop n xs)

  pub get_or-replicate : (n i : ℕ) (a d : A) → i < n → get_or (replicate n a) i d ≡ a
  get_or-replicate zero i a d h = absurd (omega arith)
  get_or-replicate (suc n) zero a d h = refl
  get_or-replicate (suc n) (suc i) a d h = get_or-replicate n i a d (omega arith)

  pub get_or-past : (xs : List A) (i : ℕ) (d : A) → length xs ≤ i → get_or xs i d ≡ d
  get_or-past [] i d h = refl
  get_or-past (x ∷ xs) zero d h = absurd (omega arith)
  get_or-past (x ∷ xs) (suc i) d h = get_or-past xs i d (omega arith)

  pub get_or-set_self :
      (xs : List A) (i : ℕ) (v d : A) → i < length xs → get_or (set xs i v) i d ≡ v
  get_or-set_self [] i v d h = absurd (omega arith)
  get_or-set_self (x ∷ xs) zero v d h = refl
  get_or-set_self (x ∷ xs) (suc i) v d h = get_or-set_self xs i v d (omega arith)

  pub get_or-set_ne :
      (xs : List A) (i j : ℕ) (v d : A) → i ≢ j → get_or (set xs i v) j d ≡ get_or xs j d
  get_or-set_ne [] i j v d h = refl
  get_or-set_ne (x ∷ xs) zero zero v d h = absurd (h refl)
  get_or-set_ne (x ∷ xs) zero (suc j) v d h = refl
  get_or-set_ne (x ∷ xs) (suc i) zero v d h = refl
  get_or-set_ne (x ∷ xs) (suc i) (suc j) v d h = get_or-set_ne xs i j v d (λ e. h (ap suc e))

  pub get_or-append_left :
      (xs ys : List A) (i : ℕ) (d : A) → i < length xs → get_or (xs ++ ys) i d ≡ get_or xs i d
  get_or-append_left [] ys i d h = absurd (omega arith)
  get_or-append_left (x ∷ xs) ys zero d h = refl
  get_or-append_left (x ∷ xs) ys (suc i) d h = get_or-append_left xs ys i d (omega arith)

  pub get_or-append_right :
      (xs ys : List A) (i j : ℕ) (d : A) → i ≡ length xs + j → get_or (xs ++ ys) i d ≡ get_or ys j d
  get_or-append_right [] ys i j d h = ap (λ k. get_or ys k d) (omega arith)
  get_or-append_right (x ∷ xs) ys zero j d h = absurd (omega arith)
  get_or-append_right (x ∷ xs) ys (suc i) j d h = get_or-append_right xs ys i j d (omega arith)

  pub get_or-resize :
      (n : ℕ) (d : A) (xs : List A) (i : ℕ) → i < n → get_or (resize n d xs) i d ≡ get_or xs i d
  get_or-resize zero d xs i h = absurd (omega arith)
  get_or-resize (suc n) d [] zero h = refl
  get_or-resize (suc n) d [] (suc i) h = get_or-resize n d [] i (omega arith)
  get_or-resize (suc n) d (x ∷ xs) zero h = refl
  get_or-resize (suc n) d (x ∷ xs) (suc i) h = get_or-resize n d xs i (omega arith)

  -- Two vectors with the same length and the same elements are equal.
  pub get_or-ext :
      (xs ys : List A) (d : A)
      → length xs ≡ length ys
      → ((i : ℕ) → i < length xs → get_or xs i d ≡ get_or ys i d)
      → xs ≡ ys
  get_or-ext [] [] d e h = refl
  get_or-ext [] (y ∷ ys) d e h = absurd (omega arith)
  get_or-ext (x ∷ xs) [] d e h = absurd (omega arith)
  get_or-ext (x ∷ xs) (y ∷ ys) d e h =
      cc (h 0 (omega arith), get_or-ext xs ys d (omega arith) (λ i p. h (suc i) (omega arith)))

module _ {ℓ} {A : Type ℓ} where
  -- f 0, …, f (n - 1)
  abbrev pub tabulate : ℕ → (ℕ → A) → List A
  tabulate zero f = []
  tabulate (suc n) f = f 0 ∷ tabulate n (λ i. f (suc i))

  pub length-tabulate : (n : ℕ) (f : ℕ → A) → length (tabulate n f) ≡ n
  length-tabulate zero f = refl
  length-tabulate (suc n) f = ap suc (length-tabulate n (λ i. f (suc i)))

  pub get_or-tabulate :
      (n : ℕ) (f : ℕ → A) (i : ℕ) (d : A) → i < n → get_or (tabulate n f) i d ≡ f i
  get_or-tabulate zero f i d h = absurd (omega arith)
  get_or-tabulate (suc n) f zero d h = refl
  get_or-tabulate (suc n) f (suc i) d h = get_or-tabulate n (λ i. f (suc i)) i d (omega arith)

  pub tabulate_ext :
      (n : ℕ) (f g : ℕ → A) → ((i : ℕ) → i < n → f i ≡ g i) → tabulate n f ≡ tabulate n g
  tabulate_ext zero f g h = refl
  tabulate_ext (suc n) f g h = cc (
    h 0 (omega arith),
    tabulate_ext n (λ i. f (suc i)) (λ i. g (suc i)) (λ i p. h (suc i) (omega arith)),
  )

  pub tabulate-add :
      (m n : ℕ) (f : ℕ → A) → tabulate (m + n) f ≡ tabulate m f ++ tabulate n (λ i. f (m + i))
  tabulate-add zero n f =
      rw add.zero (tabulate_ext n f (λ i. f (0 + i)) (λ i p. ap f (sym (add.zero i))))
  tabulate-add (suc m) n f = rw (add.suc m n) (
      ap (λ l. f 0 ∷ l)
        (tabulate-add m n (λ i. f (suc i))
          ∙ ap (λ l. tabulate m (λ i. f (suc i)) ++ l)
              (tabulate_ext n (λ i. f (suc (m + i))) (λ i. f (suc m + i))
                (λ i p. ap f (sym (add.suc m i))))))

module _ {ℓ} {A : Type ℓ} where
  pub take-tabulate : (n k : ℕ) (f : ℕ → A) → n ≤ k → take n (tabulate k f) ≡ tabulate n f
  take-tabulate zero k f h = refl
  take-tabulate (suc n) zero f h = absurd (omega arith)
  take-tabulate (suc n) (suc k) f h =
      ap (λ l. f 0 ∷ l) (take-tabulate n k (λ i. f (suc i)) (omega arith))

  pub take-drop-tabulate :
      (m n k : ℕ) (f : ℕ → A)
      → m + n ≤ k
      → take n (drop m (tabulate k f)) ≡ tabulate n (λ i. f (m + i))
  take-drop-tabulate zero n k f h =
      take-tabulate n k f (omega arith)
      ∙ tabulate_ext n f (λ i. f (0 + i)) (λ i p. ap f (sym (add.zero i)))
  take-drop-tabulate (suc m) n zero f h = absurd (omega arith)
  take-drop-tabulate (suc m) n (suc k) f h =
      take-drop-tabulate m n k (λ i. f (suc i)) (omega arith)
      ∙ tabulate_ext n (λ i. f (suc (m + i))) (λ i. f (suc m + i)) (λ i p. ap f (sym (add.suc m i)))

module _ {ℓ} {A : Type ℓ} where
  pub take-append_left : (n : ℕ) (xs ys : List A) → n ≤ length xs → take n (xs ++ ys) ≡ take n xs
  take-append_left zero xs ys h = refl
  take-append_left (suc n) [] ys h = absurd (omega arith)
  take-append_left (suc n) (x ∷ xs) ys h = ap (λ l. x ∷ l) (take-append_left n xs ys (omega arith))

  pub drop-append_left :
      (n : ℕ) (xs ys : List A) → n ≤ length xs → drop n (xs ++ ys) ≡ drop n xs ++ ys
  drop-append_left zero xs ys h = refl
  drop-append_left (suc n) [] ys h = absurd (omega arith)
  drop-append_left (suc n) (x ∷ xs) ys h = drop-append_left n xs ys (omega arith)

  pub drop-append_right : (n : ℕ) (xs ys : List A) → n ≡ length xs → drop n (xs ++ ys) ≡ ys
  drop-append_right zero [] ys h = refl
  drop-append_right zero (x ∷ xs) ys h = absurd (omega arith)
  drop-append_right (suc n) [] ys h = absurd (omega arith)
  drop-append_right (suc n) (x ∷ xs) ys h = drop-append_right n xs ys (omega arith)

  pub take_all : (n : ℕ) (xs : List A) → length xs ≤ n → take n xs ≡ xs
  take_all zero [] h = refl
  take_all zero (x ∷ xs) h = absurd (omega arith)
  take_all (suc n) [] h = refl
  take_all (suc n) (x ∷ xs) h = ap (λ l. x ∷ l) (take_all n xs (omega arith))

  pub get_or-drop : (n i : ℕ) (xs : List A) (d : A) → get_or (drop n xs) i d ≡ get_or xs (n + i) d
  get_or-drop zero i xs d = ap (λ k. get_or xs k d) (sym (add.zero i))
  get_or-drop (suc n) i [] d = refl
  get_or-drop (suc n) i (x ∷ xs) d =
      get_or-drop n i xs d ∙ ap (λ k. get_or (x ∷ xs) k d) (sym (add.suc n i))

  pub get_or-take : (n i : ℕ) (xs : List A) (d : A) → i < n → get_or (take n xs) i d ≡ get_or xs i d
  get_or-take zero i xs d h = absurd (omega arith)
  get_or-take (suc n) i [] d h = refl
  get_or-take (suc n) zero (x ∷ xs) d h = refl
  get_or-take (suc n) (suc i) (x ∷ xs) d h = get_or-take n i xs d (omega arith)

module _ {ℓ} {A : Type ℓ} where
  pub drop-drop : (m n : ℕ) (xs : List A) → drop m (drop n xs) ≡ drop (n + m) xs
  drop-drop m zero xs = ap (λ k. drop k xs) (sym (add.zero m))
  drop-drop m (suc n) (x ∷ xs) = drop-drop m n xs ∙ ap (λ k. drop k (x ∷ xs)) (sym (add.suc n m))
  drop-drop zero (suc n) [] = ap (λ k. drop k []) (sym (add.suc n 0))
  drop-drop (suc m) (suc n) [] = ap (λ k. drop k []) (sym (add.suc n (suc m)))

  -- A window of a window
  pub take-drop-take :
      (m x l : ℕ) (xs : List A) → x + m ≤ l → take m (drop x (take l xs)) ≡ take m (drop x xs)
  take-drop-take zero x l xs h = refl
  take-drop-take (suc m) zero zero xs h = absurd (omega arith)
  take-drop-take (suc m) zero (suc l) [] h = refl
  take-drop-take (suc m) zero (suc l) (x ∷ xs) h =
      ap (λ k. x ∷ k) (take-drop-take m 0 l xs (omega arith))
  take-drop-take (suc m) (suc n) zero xs h = absurd (omega arith)
  take-drop-take (suc m) (suc n) (suc l) [] h = refl
  take-drop-take (suc m) (suc n) (suc l) (x ∷ xs) h = take-drop-take (suc m) n l xs (omega arith)

  pub drop-append_add :
      (m n : ℕ) (xs ys : List A) → n ≡ length xs → drop (n + m) (xs ++ ys) ≡ drop m ys
  drop-append_add m n xs ys h =
      sym (drop-drop m n (xs ++ ys)) ∙ ap (drop m) (drop-append_right n xs ys h)
