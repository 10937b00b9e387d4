-- ===== src/Prelude/Sorting.antt =====
-- sort.SliceStable of Go: the stable rearrangement of a slice that is ascending for a `less`. Any
-- way to compute it gives the same slice, so it is the insertion sort here.
use mathlib.Core.Path.{◌≡◌, refl, subst, ◌∙◌}
use mathlib.Core.Logic.{inl, inr}
use mathlib.Core.Bool.{Bool, true, false, ◌||◌}
use mathlib.Core.List.{List, [], ◌∷◌, ◌++◌}
use mathlib.Core.List.{Permᴰ}
use mathlib.Core.List.Permᴰ as Perm
use native.Mathlib.Omega.{arith}
use ispo_shedule_backend.Prelude.Tests.{if◌then◌else◌, Bool-cases}
use ispo_shedule_backend.Prelude.Lists.{All}

module _ {ℓ} {A : Type ℓ} (less : A → A → Bool) where
  unfoldable pub insert_sorted : A → List A → List A
  insert_sorted x [] = x ∷ []
  insert_sorted x (y ∷ ys) =
      let rest = insert_sorted x ys in if less y x then y ∷ rest else x ∷ y ∷ ys

  unfoldable pub stable_sort : List A → List A
  unfolding insert_sorted
  stable_sort [] = []
  stable_sort (x ∷ xs) = insert_sorted x (stable_sort xs)

  -- No entry is less than one before it.
  abbrev pub IsSorted : List A → Type ℓ
  IsSorted [] = Unit
  IsSorted (x ∷ xs) = All (λ y. less y x ≡ false) xs × IsSorted xs

  -- Of any two entries one is less than the other.
  abbrev pub IsStrict : List A → Type ℓ
  IsStrict [] = Unit
  IsStrict (x ∷ xs) = All (λ y. (less x y || less y x) ≡ true) xs × IsStrict xs

  -- What `less` has to be, so that a sorted order exists.
  pub record IsWeakOrder : Type ℓ where
    pub asym : (a b : A) → less a b ≡ true → less b a ≡ false
    pub trans : (a b c : A) → less b a ≡ false → less c b ≡ false → less c a ≡ false

module _ {ℓ κ} {A : Type ℓ} (P : A → Type κ) where
  pub All-perm : {xs ys : List A} → Permᴰ xs ys → All P xs → All P ys
  All-perm Permᴰ.nil h = h
  All-perm (Permᴰ.cons e d) h = (subst P e h.0, All-perm d h.1)
  All-perm (Permᴰ.swap e₁ e₂) h = (subst P e₂ h.1.0, (subst P e₁ h.0, h.1.1))
  All-perm (Permᴰ.trans d₁ d₂) h = All-perm d₂ (All-perm d₁ h)

  pub All-append : (xs ys : List A) → All P xs → All P ys → All P (xs ++ ys)
  All-append [] ys h k = k
  All-append (x ∷ xs) ys h k = (h.0, All-append xs ys h.1 k)

module _ {ℓ κ μ} {A : Type ℓ} (P : A → Type κ) (Q : A → Type μ) where
  pub All-map : (xs : List A) → ((x : A) → P x → Q x) → All P xs → All Q xs
  All-map [] f h = tt
  All-map (x ∷ xs) f h = (f x h.0, All-map xs f h.1)

module _ {ℓ} {A : Type ℓ} (less : A → A → Bool) where
  insert_sorted-perm : (x : A) (xs : List A) → Permᴰ (insert_sorted less x xs) (x ∷ xs)
  unfolding insert_sorted
  insert_sorted-perm x [] = Perm.refl (x ∷ [])
  insert_sorted-perm x (y ∷ ys) = elim (Bool-cases (less y x)) [
    | inl p ↦ rw p (Permᴰ.trans (Permᴰ.cons refl (insert_sorted-perm x ys)) (Permᴰ.swap refl refl))
    | inr p ↦ rw p (Perm.refl (x ∷ y ∷ ys))
  ]

  -- sorting is a rearrangement
  pub stable_sort-perm : (xs : List A) → Permᴰ (stable_sort less xs) xs
  unfolding stable_sort
  stable_sort-perm [] = Permᴰ.nil
  stable_sort-perm (x ∷ xs) =
      Permᴰ.trans (insert_sorted-perm x (stable_sort less xs))
        (Permᴰ.cons refl (stable_sort-perm xs))

  module _ (order : IsWeakOrder less) where
    insert_sorted-IsSorted :
        (x : A) (xs : List A) → IsSorted less xs → IsSorted less (insert_sorted less x xs)
    unfolding insert_sorted
    insert_sorted-IsSorted x [] h = (tt, tt)
    insert_sorted-IsSorted x (y ∷ ys) h = elim (Bool-cases (less y x)) [
      | inl p ↦ rw p (
        All-perm (λ z. less z y ≡ false) (Perm.symm (insert_sorted-perm x ys))
            (order.asym y x p, h.0),
        insert_sorted-IsSorted x ys h.1,
      )
      | inr p ↦ rw p (
        (
          p,
          All-map (λ z. less z y ≡ false) (λ z. less z x ≡ false) ys (λ z q. order.trans x y z p q)
              h.0,
        ),
        h,
      )
    ]

    pub stable_sort-IsSorted : (xs : List A) → IsSorted less (stable_sort less xs)
    unfolding stable_sort
    stable_sort-IsSorted [] = tt
    stable_sort-IsSorted (x ∷ xs) =
        insert_sorted-IsSorted x (stable_sort less xs) (stable_sort-IsSorted xs)

    insert_sorted-swap :
        (x y : A) (zs : List A)
        → (less x y || less y x) ≡ true
        → insert_sorted less x (insert_sorted less y zs)
          ≡ insert_sorted less y (insert_sorted less x zs)
    unfolding insert_sorted
    insert_sorted-swap x y [] h = ground (arith, order.asym x y, order.asym y x)
    insert_sorted-swap x y (z ∷ zs) h = ground (
      arith,
      order.asym x y,
      order.asym y x,
      order.trans x z y,
      order.trans y z x,
      order.asym z x,
      order.asym z y,
      insert_sorted-swap x y zs h,
    )

    pub IsStrict-perm : {xs ys : List A} → Permᴰ xs ys → IsStrict less xs → IsStrict less ys
    IsStrict-perm Permᴰ.nil h = h
    IsStrict-perm (Permᴰ.cons {a} {b} {l₁} {l₂} e d) h = (
      subst (λ a. All (λ y. (less a y || less y a) ≡ true) l₂) e
          (All-perm (λ y. (less a y || less y a) ≡ true) d h.0),
      IsStrict-perm d h.1,
    )
    IsStrict-perm (Permᴰ.swap {a} {b} {a'} {b'} {l} e₁ e₂) h =
        subst (λ u. IsStrict less (u ∷ b' ∷ l)) e₂
          (subst (λ v. IsStrict less (b ∷ v ∷ l)) e₁
            ((ground (arith, h.0.0), h.1.0), (h.0.1, h.1.1)))
    IsStrict-perm (Permᴰ.trans d₁ d₂) h = IsStrict-perm d₂ (IsStrict-perm d₁ h)

    -- Sorting forgets the order of its input, unless two entries tie.
    pub stable_sort-forgets :
        {xs ys : List A}
        → Permᴰ xs ys
        → IsStrict less xs
        → stable_sort less xs ≡ stable_sort less ys
    unfolding stable_sort
    stable_sort-forgets Permᴰ.nil h = refl
    stable_sort-forgets (Permᴰ.cons e d) h =
        λ i. insert_sorted less (e i) (stable_sort-forgets d h.1 i)
    stable_sort-forgets (Permᴰ.swap {a} {b} {a'} {b'} {l} e₁ e₂) h =
        insert_sorted-swap a b (stable_sort less l) h.0.0
        ∙ (λ i. insert_sorted less (e₂ i) (insert_sorted less (e₁ i) (stable_sort less l)))
    stable_sort-forgets (Permᴰ.trans d₁ d₂) h =
        stable_sort-forgets d₁ h ∙ stable_sort-forgets d₂ (IsStrict-perm d₁ h)
