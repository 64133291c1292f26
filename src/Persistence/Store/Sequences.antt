-- ===== src/Persistence/Store/Sequences.antt =====
-- packages/persistence/src/cursor.ts: lists in the order of a sequence, cut at a number and at a length.
use ai_development_os.Prelude.{
  ℕ, zero, suc, ◌<◌, ◌≡◌, refl, subst, Bool, true, false, ◌&&◌, Option, none, some, List, [], ◌∷◌,
  ◌++◌, Result, ok, All, All-append_one, ltb, take, drop, filter, map_result, if_ind, arith,
}
use ai_development_os.Persistence.Store.Messages.{insert_in_sequence, sorted_by_sequence}
use ai_development_os.Persistence.Store.Paging.{last?, is_after}

-- Each item has a larger number than those before it.
abbrev pub Ascending {ℓ} : {A : Type ℓ} → (A → ℕ) → List A → Type ℓ
Ascending f [] = Unit
Ascending f (x ∷ xs) = All (λ y. f x < f y) xs × Ascending f xs

pub Ascending-append_one :
    {A : Type 0} (f : A → ℕ) (xs : List A) (x : A)
    → All (λ y. f y < f x) xs
    → Ascending f xs
    → Ascending f (xs ++ (x ∷ []))
Ascending-append_one f [] x small h = (tt, tt)
Ascending-append_one f (y ∷ ys) x (less, more) (here, there) =
    (All-append_one (λ z. f y < f z) ys x here less, Ascending-append_one f ys x more there)

module _ {A : Type 0} (f : A → ℕ) where
  pub sorted-of_Ascending : (xs : List A) → Ascending f xs → sorted_by_sequence f xs ≡ xs
  sorted-of_Ascending [] h = refl
  sorted-of_Ascending (x ∷ xs) (here, there) = rw (sorted-of_Ascending xs there) (first xs here)
    where
      first : (ys : List A) → All (λ y. f x < f y) ys → insert_in_sequence f x ys ≡ x ∷ ys
      first [] h = refl
      first (y ∷ ys) (less, _) = ground (arith, less)

  pub All-filter : (P : A → Type 0) (p : A → Bool) (xs : List A) → All P xs → All P (filter p xs)
  All-filter P p [] h = tt
  All-filter P p (x ∷ xs) (here, there) =
      if_ind (All P) (p x) (λ _. (here, All-filter P p xs there)) (λ _. All-filter P p xs there)

  pub filter-Ascending : (p : A → Bool) (xs : List A) → Ascending f xs → Ascending f (filter p xs)
  filter-Ascending p [] h = tt
  filter-Ascending p (x ∷ xs) (here, there) =
      if_ind (Ascending f) (p x)
        (λ _. (All-filter (λ y. f x < f y) p xs here, filter-Ascending p xs there))
        (λ _. filter-Ascending p xs there)

  pub All-take : (P : A → Type 0) (n : ℕ) (xs : List A) → All P xs → All P (take n xs)
  All-take P zero xs h = tt
  All-take P (suc n) [] h = tt
  All-take P (suc n) (x ∷ xs) (here, there) = (here, All-take P n xs there)

  pub filter-and :
      (p q : A → Bool) (xs : List A) → filter (λ x. p x && q x) xs ≡ filter q (filter p xs)
  filter-and p q [] = refl
  filter-and p q (x ∷ xs) = ground (arith, filter-and p q xs)

  pub map_result_same {μ} :
      {E : Type μ} (g : A → Result E A) (xs : List A)
      → All (λ x. g x ≡ ok x) xs
      → map_result g xs ≡ ok xs
  map_result_same g [] h = refl
  map_result_same g (x ∷ xs) (here, there) = rw (here, map_result_same g xs there) refl

  pub last?-none : (xs : List A) → last? xs ≡ none → xs ≡ []
  last?-none [] h = refl
  last?-none (x ∷ []) h = absurd (cc h)
  last?-none (x ∷ y ∷ ys) h = absurd (cc (last?-none (y ∷ ys) h))

  pub last-All :
      (P : A → Type 0) (n : ℕ) (xs : List A) {l : A} → All P xs → last? (take n xs) ≡ some l → P l
  last-All P zero xs h e = absurd (cc e)
  last-All P (suc n) [] h e = absurd (cc e)
  last-All P (suc zero) (x ∷ xs) (here, there) e = subst P (cc e) here
  last-All P (suc (suc n)) (x ∷ []) (here, there) e = subst P (cc e) here
  last-All P (suc (suc n)) (x ∷ y ∷ ys) (here, there) e = last-All P (suc n) (y ∷ ys) there e

  filter_larger : (k : ℕ) (xs : List A) → All (λ y. k < f y) xs → filter (λ y. ltb k (f y)) xs ≡ xs
  filter_larger k [] h = refl
  filter_larger k (x ∷ xs) (here, there) = ground (arith, here, filter_larger k xs there)

  first_skipped :
      (x : A) (xs : List A) → All (λ y. f x < f y) xs → filter (λ y. ltb (f x) (f y)) (x ∷ xs) ≡ xs
  first_skipped x xs here =
      let own : ltb (f x) (f x) ≡ false = ground arith in rw own (filter_larger (f x) xs here)

  -- What comes after the last item of the first `n` is what is left without them.
  pub after_last :
      (n : ℕ) (xs : List A) {l : A}
      → Ascending f xs
      → last? (take n xs) ≡ some l
      → filter (λ y. ltb (f l) (f y)) xs ≡ drop n xs
  after_last zero xs h e = absurd (cc e)
  after_last (suc n) [] h e = absurd (cc e)
  after_last (suc zero) (x ∷ xs) {l} (here, there) e =
      subst (λ z. filter (λ y. ltb (f z) (f y)) (x ∷ xs) ≡ xs) (cc e) (first_skipped x xs here)
  after_last (suc (suc n)) (x ∷ []) {l} (here, there) e =
      subst (λ z. filter (λ y. ltb (f z) (f y)) (x ∷ []) ≡ []) (cc e) (first_skipped x [] tt)
  after_last (suc (suc n)) (x ∷ y ∷ ys) {l} (here, there) e =
      let less : f x < f l = last-All (λ z. f x < f z) (suc n) (y ∷ ys) here e in
      let rest = after_last (suc n) (y ∷ ys) there e in
      let skipped : ltb (f l) (f x) ≡ false = ground (arith, less) in rw skipped rest

  -- Of what comes after a number, what comes after a larger one.
  pub filter-later :
      (o : Option ℕ) (k : ℕ) (xs : List A)
      → is_after o k ≡ true
      → filter (λ y. ltb k (f y)) (filter (λ y. is_after o (f y)) xs) ≡ filter (λ y. ltb k (f y)) xs
  filter-later o k [] h = refl
  filter-later none k (x ∷ xs) h = ground (arith, filter-later none k xs h)
  filter-later (some j) k (x ∷ xs) h = ground (arith, h, filter-later (some j) k xs h)

  pub is_after-last :
      (o : Option ℕ) (n : ℕ) (xs : List A) {l : A}
      → last? (take n (filter (λ y. is_after o (f y)) xs)) ≡ some l
      → is_after o (f l) ≡ true
  is_after-last o n xs e =
      last-All (λ y. is_after o (f y) ≡ true) n (filter (λ y. is_after o (f y)) xs) (passes xs) e
    where
      passes :
          (ys : List A) → All (λ y. is_after o (f y) ≡ true) (filter (λ y. is_after o (f y)) ys)
      passes [] = tt
      passes (y ∷ ys) =
          if_ind (All (λ z. is_after o (f z) ≡ true)) (is_after o (f y)) (λ hit. (hit, passes ys))
            (λ _. passes ys)
