-- ===== src/Router/Circuit/Memory.antt =====
-- packages/router/src/circuit.ts: the events that a circuit remembers.
use ai_development_os.Prelude.{
  ℕ, zero, suc, ◌-◌, ◌≤◌, ◌<◌, ◌≡◌, refl, Bool, true, false, ◌||◌, List, [], ◌∷◌, ◌++◌, Result, ok,
  map_result, nat_beq, length, drop, contains, is_nodup, contains-append, length-append,
  length-drop, string_eq, Eq, beq_refl, arith, after_ok, if_ind,
}
use ai_development_os.Router.Circuit.Transition.{slice_last}

module _ {ℓ} {A : Type ℓ} where
  pub length-slice_last : (n : ℕ) (xs : List A) → 0 < n → length (slice_last n xs) ≤ n
  length-slice_last n xs h = ground (arith, length-drop (length xs - n) xs)

  pub length-slice_last-le : (n : ℕ) (xs : List A) → length (slice_last n xs) ≤ length xs
  length-slice_last-le n xs = ground (arith, length-drop (length xs - n) xs)

  -- What holds of every end of a list holds of a slice of it.
  pub slice_last_ind {κ} :
      (P : List A → Type κ) (n : ℕ) (xs : List A)
      → ((m : ℕ) (ys : List A) → P ys → P (drop m ys))
      → P xs
      → P (slice_last n xs)
  slice_last_ind P n xs step h = if_ind P (nat_beq n 0) (λ _. h) (λ _. step (length xs - n) xs h)

pub map_result-drop {ℓ μ} :
    {E : Type μ} {A : Type ℓ} (f : A → Result E A) (n : ℕ) (xs : List A)
    → map_result f xs ≡ ok xs
    → map_result f (drop n xs) ≡ ok (drop n xs)
map_result-drop f zero xs h = h
map_result-drop f (suc n) [] h = h
map_result-drop f (suc n) (x ∷ xs) h =
    after_ok (f x) _ h
      λ y hy h1. after_ok (map_result f xs) _ h1 λ ys hys h2. map_result-drop f n xs (cc (hys, h2))

pub map_result-append_one {ℓ μ} :
    {E : Type μ} {A : Type ℓ} (f : A → Result E A) (xs : List A) (a : A)
    → map_result f xs ≡ ok xs
    → f a ≡ ok a
    → map_result f (xs ++ (a ∷ [])) ≡ ok (xs ++ (a ∷ []))
map_result-append_one f [] a h k = rw k refl
map_result-append_one f (x ∷ xs) a h k = after_ok (f x) _ h λ y hy h1.
    after_ok (map_result f xs) _ h1
      λ ys hys h2. rw (hy, map_result-append_one f xs a (cc (hys, h2)) k) (cc h2)

module _ {ℓ} {A : Type ℓ} ⦃e : Eq A⦄ where
  pub is_nodup-drop : (n : ℕ) (xs : List A) → is_nodup xs ≡ true → is_nodup (drop n xs) ≡ true
  is_nodup-drop zero xs h = h
  is_nodup-drop (suc n) [] h = h
  is_nodup-drop (suc n) (x ∷ xs) h = is_nodup-drop n xs (ground (arith, h))

  pub contains-drop-false :
      (n : ℕ) (xs : List A) (a : A) → contains xs a ≡ false → contains (drop n xs) a ≡ false
  contains-drop-false zero xs a h = h
  contains-drop-false (suc n) [] a h = h
  contains-drop-false (suc n) (x ∷ xs) a h = contains-drop-false n xs a (ground (arith, h))

  contains-drop :
      (n : ℕ) (xs : List A) (a : A) → n ≤ length xs → contains (drop n (xs ++ (a ∷ []))) a ≡ true
  contains-drop zero xs a h =
      rw (contains-append xs (a ∷ []) a, beq_refl a) (or_true (contains xs a))
    where
      or_true : (b : Bool) → (b || true) ≡ true
      or_true true = refl
      or_true false = refl
  contains-drop (suc n) [] a h = absurd (omega (arith, h))
  contains-drop (suc n) (x ∷ xs) a h = contains-drop n xs a (omega (arith, h))

  -- The last item stays in every slice.
  pub contains-slice_last :
      (n : ℕ) (xs : List A) (a : A) → contains (slice_last n (xs ++ (a ∷ []))) a ≡ true
  contains-slice_last n xs a =
      if_ind (λ ys. contains ys a ≡ true) (nat_beq n 0) (λ _. contains-drop 0 xs a (omega arith))
        (λ positive.
          contains-drop (length (xs ++ (a ∷ [])) - n) xs a
            (ground (arith, length-append xs (a ∷ []), positive)))
