-- ===== src/Prelude/Table.antt =====
-- A `Map` as the list of its values in the order of insertion, each value with its key.
use mathlib.Core.Path.{◌≡◌, refl, ap, sym, ◌∙◌}
use mathlib.Core.Logic.{◌≢◌, inl, inr}
use mathlib.Core.Bool.{true, false}
use mathlib.Core.Option.{Option, none, some}
use mathlib.Core.List.{List, [], ◌∷◌, ◌++◌, map}
use ai_development_os.Prelude.Tests.{Eq, ◌==◌, if◌then◌else◌, Eq-cases, Bool-cases, Option-cases}
use ai_development_os.Prelude.Members.{is_nodup-append_one}
use ai_development_os.Prelude.Lists.{find?, find?-sound, contains, is_nodup}

-- What holds of every item.
abbrev pub All {ℓ κ} : {A : Type ℓ} → (A → Type κ) → List A → Type κ
All P [] = Unit
All P (x ∷ xs) = P x × All P xs

pub All-map {ℓ κ μ} :
    {A : Type ℓ} {P : A → Type κ} {Q : A → Type μ} (xs : List A)
    → ((a : A) → P a → Q a)
    → All P xs
    → All Q xs
All-map [] f h = tt
All-map (x ∷ xs) f (here, there) = (f x here, All-map xs f there)

pub All-append_one {ℓ κ} :
    {A : Type ℓ} (P : A → Type κ) (xs : List A) (a : A) → All P xs → P a → All P (xs ++ (a ∷ []))
All-append_one P [] a h here = (here, tt)
All-append_one P (x ∷ xs) a (first, rest) here = (first, All-append_one P xs a rest here)

-- `map.get(k)`.
abbrev pub lookup {ℓ κ} : {A : Type ℓ} {K : Type κ} ⦃e : Eq K⦄ → (A → K) → List A → K → Option A
lookup key xs k = find? (λ a. key a == k) xs

-- `map.set(key a, a)`: a value that is there is replaced where it stands.
abbrev pub put {ℓ κ} : {A : Type ℓ} {K : Type κ} ⦃e : Eq K⦄ → (A → K) → List A → A → List A
put key [] a = a ∷ []
put key (x ∷ xs) a = if key x == key a then a ∷ xs else x ∷ put key xs a

module _ {ℓ κ} {A : Type ℓ} {K : Type κ} ⦃e : Eq K⦄ (key : A → K) where
  pub lookup-key : (xs : List A) (k : K) {a : A} → lookup key xs k ≡ some a → key a ≡ k
  lookup-key xs k {a} h = (e.decides (key a) k).0 (find?-sound (λ b. key b == k) xs h)

  pub put-absent :
      (xs : List A) (a : A) → lookup key xs (key a) ≡ none → put key xs a ≡ xs ++ (a ∷ [])
  put-absent [] a h = refl
  put-absent (x ∷ xs) a h = elim (Bool-cases (key x == key a)) [
    | inl hit ↦ absurd (cc (rw hit at h))
    | inr miss ↦ rw (miss, put-absent xs a (rw miss at h)) refl
  ]

  pub lookup-put-same : (xs : List A) (a : A) → lookup key (put key xs a) (key a) ≡ some a
  lookup-put-same [] a = rw ((e.decides (key a) (key a)).1 refl) refl
  lookup-put-same (x ∷ xs) a = elim (Bool-cases (key x == key a)) [
    | inl hit ↦ rw (hit, (e.decides (key a) (key a)).1 refl) refl
    | inr miss ↦ rw (miss, miss, lookup-put-same xs a) refl
  ]

  pub lookup-put-other :
      (xs : List A) (a : A) (k : K) → key a ≢ k → lookup key (put key xs a) k ≡ lookup key xs k
  lookup-put-other [] a k n = elim (Eq-cases (key a) k) [
    | inl (same, _) ↦ absurd (n same)
    | inr (_, miss) ↦ rw miss refl
  ]
  lookup-put-other (x ∷ xs) a k n = elim (Eq-cases (key x) (key a)) [
    | inl (same, hit) ↦ elim (Eq-cases (key a) k) [
      | inl (found, _) ↦ absurd (n found)
      | inr (_, miss) ↦ rw (hit, same, miss) refl
    ]
    | inr (_, apart) ↦
        rw apart (ap (λ r. if key x == k then some x else r) (lookup-put-other xs a k n))
  ]

  pub map-put {μ} :
      {B : Type μ} (f : A → B) (xs : List A) (a : A) {b : A}
      → lookup key xs (key a) ≡ some b
      → f a ≡ f b
      → map f (put key xs a) ≡ map f xs
  map-put f [] a h same = absurd (cc h)
  map-put f (x ∷ xs) a {b} h same = elim (Bool-cases (key x == key a)) [
    | inl hit ↦ rw hit (ap (λ k. k ∷ map f xs) (same ∙ ap f (sym (first (rw hit at h)))))
    | inr miss ↦ rw miss (ap (λ ks. f x ∷ ks) (map-put f xs a (rw miss at h) same))
  ]
    where
      first : some x ≡ some b → x ≡ b
      first e = cc e

  pub contains_of_lookup :
      (xs : List A) (k : K) {a : A} → lookup key xs k ≡ some a → contains (map key xs) k ≡ true
  contains_of_lookup [] k h = absurd (cc h)
  contains_of_lookup (x ∷ xs) k h = elim (Bool-cases (key x == k)) [
    | inl hit ↦ rw hit refl
    | inr miss ↦ rw miss (contains_of_lookup xs k (rw miss at h))
  ]

  pub contains_of_lookup-none :
      (xs : List A) (k : K) → lookup key xs k ≡ none → contains (map key xs) k ≡ false
  contains_of_lookup-none [] k h = refl
  contains_of_lookup-none (x ∷ xs) k h = elim (Bool-cases (key x == k)) [
    | inl hit ↦ absurd (cc (rw hit at h))
    | inr miss ↦ rw miss (contains_of_lookup-none xs k (rw miss at h))
  ]

  -- A value of a list with distinct keys is found by its key.
  pub lookup-own :
      (xs : List A) → is_nodup (map key xs) ≡ true → All (λ a. lookup key xs (key a) ≡ some a) xs
  lookup-own [] h = tt
  lookup-own (x ∷ xs) h = elim (Bool-cases (contains (map key xs) (key x))) [
    | inl again ↦ absurd (cc (rw again at h))
    | inr fresh ↦ (
      rw ((e.decides (key x) (key x)).1 refl) refl,
      All-map xs
          (λ a there. elim (Eq-cases (key x) (key a)) [
            | inl (same, _) ↦
                absurd
                  (cc (fresh, ap (contains (map key xs)) same, contains_of_lookup xs (key a) there))
            | inr (_, miss) ↦ rw miss there
          ])
          (lookup-own xs (rw fresh at h)),
    )
  ]

  map-append_one {μ} :
      {B : Type μ} (f : A → B) (xs : List A) (a : A)
      → map f (xs ++ (a ∷ [])) ≡ map f xs ++ (f a ∷ [])
  map-append_one f [] a = refl
  map-append_one f (x ∷ xs) a = ap (λ ys. f x ∷ ys) (map-append_one f xs a)

  pub map-put-absent {μ} :
      {B : Type μ} (f : A → B) (xs : List A) (a : A)
      → lookup key xs (key a) ≡ none
      → map f (put key xs a) ≡ map f xs ++ (f a ∷ [])
  map-put-absent f xs a h = ap (map f) (put-absent xs a h) ∙ map-append_one f xs a

  pub is_nodup-put :
      (xs : List A) (a : A)
      → is_nodup (map key xs) ≡ true
      → is_nodup (map key (put key xs a)) ≡ true
  is_nodup-put xs a distinct = elim (Option-cases (lookup key xs (key a))) [
    | inl free ↦ rw (map-put-absent key xs a free) (
        is_nodup-append_one (map key xs) (key a) distinct (contains_of_lookup-none xs (key a) free))
    | inr (b, there) ↦ rw (map-put key xs a there (sym (lookup-key xs (key a) there))) distinct
  ]
