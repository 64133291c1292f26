-- ===== src/Prelude/Members.antt =====
-- Membership: the library's `Mem`, `Nodup` and `Perm` beside the Boolean tests of the code.
use mathlib.Core.List.{
  List, [], ◌∷◌, ◌++◌, Mem, Nodup, Perm, Subset, not-mem-nil, mem-cons, mem-cons_self,
  mem-cons_of_mem, Mem-prop, Nodup-cons, Nodup-nil,
}
use mathlib.Core.List.Nodup
use mathlib.Core.List.Subperm
use mathlib.Core.List.{length as length_unary}
use mathlib.Core.Logic.Or
use mathlib.Core.Logic.{inl, inr}
use mathlib.Core.Path.{◌≡◌, refl, sym, ap, subst}
use mathlib.Core.Option.{some}
use mathlib.Core.Bool.{Bool, true, false}
use mathlib.Core.HLevel.{×_prop}
use Prim.Native.Nat.{suc, ◌≤◌}
use native.Mathlib.Bridge.{from_ℕ, from_le, from_le⁻¹}
use native.Mathlib.Omega.{arith}
use ai_development_os.Prelude.Tests.{Eq, Bool-cases, Eq-cases, if_ind}
use ai_development_os.Prelude.Lists.{
  length, filter, contains, is_nodup, all, any, find?, contains-append,
}

pub Bool-set : IsSet Bool
Bool-set = hlevel

module _ {ℓ} {A : Type ℓ} where
  pub from_ℕ-length : (xs : List A) → from_ℕ (length_unary xs) ≡ length xs
  from_ℕ-length [] = refl
  from_ℕ-length (x ∷ xs) = ap suc (from_ℕ-length xs)

  -- Distinct items of a list are no more than its items.
  pub Nodup-length-le : (xs ys : List A) → Nodup xs → Subset xs ys → length xs ≤ length ys
  Nodup-length-le xs ys n s =
      rw (← from_ℕ-length xs, ← from_ℕ-length ys) (from_le (Subperm.length-le (Nodup.subperm n s)))

  -- If they are as many, they are its items.
  pub Nodup-perm : (xs ys : List A) → Nodup xs → Subset xs ys → length ys ≤ length xs → Perm xs ys
  Nodup-perm xs ys n s le =
      Subperm.perm_of_length_le (Nodup.subperm n s)
        (from_le⁻¹ (length_unary ys) (length_unary xs) (rw (from_ℕ-length xs, from_ℕ-length ys) le))

  pub find?-mem : (p : A → Bool) (xs : List A) {a : A} → find? p xs ≡ some a → Mem a xs
  find?-mem p [] h = absurd (cc h)
  find?-mem p (x ∷ xs) {a} h = elim (Bool-cases (p x)) [
    | inl hit ↦ rw (← some-injective (rw hit at h)) mem-cons_self
    | inr miss ↦ mem-cons_of_mem x (find?-mem p xs (rw miss at h))
  ]
    where
      some-injective : some x ≡ some a → x ≡ a
      some-injective e = cc

  pub mem-all : (p : A → Bool) (xs : List A) (a : A) → Mem a xs → all p xs ≡ true → p a ≡ true
  mem-all p [] a m h = absurd (not-mem-nil m)
  mem-all p (x ∷ xs) a m h =
      Or.elim (Bool-set (p a) true) (mem-cons.0 m) (λ same. rw same (ground (arith, h)))
        (λ later. mem-all p xs a later (ground (arith, h)))

  pub any_sound : (p : A → Bool) (xs : List A) → any p xs ≡ true → (a : A) × Mem a xs × (p a ≡ true)
  any_sound p [] h = absurd (cc h)
  any_sound p (x ∷ xs) h = elim (Bool-cases (p x)) [
    | inl here ↦ (x, mem-cons_self, here)
    | inr gone ↦ let (a, m, hit) = any_sound p xs (rw gone at h) in (a, mem-cons_of_mem x m, hit)
  ]

  pub mem-filter :
      (p : A → Bool) (xs : List A) (a : A) → Mem a (filter p xs) → Mem a xs × (p a ≡ true)
  mem-filter p [] a m = absurd (not-mem-nil m)
  mem-filter p (x ∷ xs) a m = elim (Bool-cases (p x)) [
    | inl kept ↦
        Or.elim (×_prop Mem-prop (Bool-set (p a) true)) (mem-cons.0 (rw kept at m))
          (λ same. (rw same mem-cons_self, rw same kept))
          (λ later.
            let (there, passes) = mem-filter p xs a later in (mem-cons_of_mem x there, passes))
    | inr dropped ↦
        let (there, passes) = mem-filter p xs a (rw dropped at m) in
        (mem-cons_of_mem x there, passes)
  ]

  pub mem-filter_of_mem :
      (p : A → Bool) (xs : List A) (a : A) → Mem a xs → p a ≡ true → Mem a (filter p xs)
  mem-filter_of_mem p [] a m h = m
  mem-filter_of_mem p (x ∷ xs) a m h =
      Or.elim Mem-prop (mem-cons.0 m) (λ same. rw (← same, h) mem-cons_self)
        λ later.
          if_ind (Mem a) (p x) (λ _. mem-cons_of_mem x (mem-filter_of_mem p xs a later h))
            (λ _. mem-filter_of_mem p xs a later h)

module _ {ℓ} {A : Type ℓ} ⦃e : Eq A⦄ where
  pub mem_of_contains : (xs : List A) (a : A) → contains xs a ≡ true → Mem a xs
  mem_of_contains [] a h = absurd (cc h)
  mem_of_contains (x ∷ xs) a h = elim (Eq-cases x a) [
    | inl (same, _) ↦ subst (λ y. Mem a (y ∷ xs)) (sym same) mem-cons_self
    | inr (_, other) ↦ mem-cons_of_mem x (mem_of_contains xs a (rw other at h))
  ]

  pub contains_of_mem : (xs : List A) (a : A) → Mem a xs → contains xs a ≡ true
  contains_of_mem [] a m = absurd (not-mem-nil m)
  contains_of_mem (x ∷ xs) a m =
      Or.elim (Bool-set (contains (x ∷ xs) a) true) (mem-cons.0 m)
        (λ same. rw (same, (e.decides x x).1 refl))
        (λ later. ground (arith, contains_of_mem xs a later))

  pub contains_of_not-mem : (xs : List A) (a : A) → ¬ Mem a xs → contains xs a ≡ false
  contains_of_not-mem xs a n = elim (Bool-cases (contains xs a)) [
    | inl found ↦ absurd (n (mem_of_contains xs a found))
    | inr missing ↦ missing
  ]

  pub Nodup-of_is_nodup : (xs : List A) → is_nodup xs ≡ true → Nodup xs
  Nodup-of_is_nodup [] h = Nodup-nil
  Nodup-of_is_nodup (x ∷ xs) h = elim (Bool-cases (contains xs x)) [
    | inl again ↦ absurd (cc (rw again at h))
    | inr fresh ↦
        Nodup-cons.1 (λ m. cc (contains_of_mem xs x m, fresh), Nodup-of_is_nodup xs (rw fresh at h))
  ]

  pub is_nodup-append_one :
      (xs : List A) (a : A)
      → is_nodup xs ≡ true
      → contains xs a ≡ false
      → is_nodup (xs ++ (a ∷ [])) ≡ true
  is_nodup-append_one [] a h k = refl
  is_nodup-append_one (x ∷ xs) a h k =
      let other : e.beq x a ≡ false = ground (arith, k) in
      let fresh : contains xs a ≡ false = ground (arith, k) in
      let alone : contains xs x ≡ false = ground (arith, h) in
      let apart : e.beq a x ≡ false = elim (Eq-cases a x) [
        | inl (same, _) ↦ absurd (cc (other, (e.decides x a).1 (sym same)))
        | inr (_, differ) ↦ differ
      ] in
      rw (contains-append xs (a ∷ []) x, alone, apart)
        (is_nodup-append_one xs a (ground (arith, h)) fresh)
