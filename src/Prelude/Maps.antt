-- ===== src/Prelude/Maps.antt =====
-- Go maps, as association lists with at most one entry for a key. Reading is by `lookup`; writing
-- replaces the entry of the key in its place, or adds one; `delete` drops it.
use mathlib.Core.Path.{◌≡◌, refl, sym}
use mathlib.Core.Logic.{◌≢◌, inl, inr}
use mathlib.Core.Bool.{Bool, true, false}
use mathlib.Core.Option.{Option, none, some}
use mathlib.Core.List.{List, [], ◌∷◌, ◌++◌}
use native.Mathlib.Omega.{arith}
use ispo_shedule_backend.Prelude.Tests.{HasEq, ◌==◌, if◌then◌else◌, Bool-cases, beq_refl}
use ispo_shedule_backend.Prelude.Lists.{length, All}
use Prim.Native.Nat.{suc}

module _ {ℓ κ} {K : Type ℓ} {V : Type κ} ⦃e : HasEq K⦄ where
  unfoldable pub lookup : K → List (K × V) → Option V
  lookup key [] = none
  lookup key ((k, v) ∷ entries) = let rest = lookup key entries in if k == key then some v else rest

  unfoldable pub insert : K → V → List (K × V) → List (K × V)
  insert key v [] = (key, v) ∷ []
  insert key v ((k, w) ∷ entries) =
      let rest = insert key v entries in if k == key then (key, v) ∷ entries else (k, w) ∷ rest

  unfoldable pub delete : K → List (K × V) → List (K × V)
  delete k [] = []
  delete k ((j, w) ∷ m) = let rest = delete k m in if j == k then rest else (j, w) ∷ rest

  abbrev pub has_key : K → List (K × V) → Bool
  has_key k m = elim (lookup k m) [ none ↦ false | some _ ↦ true ]

  pub lookup-insert :
      (key other : K) (v : V) (entries : List (K × V))
      → lookup other (insert key v entries)
        ≡ (if key == other then some v else lookup other entries)
  unfolding lookup insert
  lookup-insert key other v [] = refl
  lookup-insert key other v ((i, w) ∷ entries) = ground (
    arith,
    e.equal_iff i other,
    e.equal_iff i key,
    e.equal_iff key other,
    lookup-insert key other v entries,
  )

  pub lookup-delete :
      (k j : K) (m : List (K × V)) → lookup j (delete k m) ≡ (if k == j then none else lookup j m)
  unfolding lookup delete
  lookup-delete k j [] = ground arith
  lookup-delete k j ((i, w) ∷ m) =
      ground (arith, e.equal_iff k j, e.equal_iff i k, e.equal_iff i j, lookup-delete k j m)

  abbrev pub keys : List (K × V) → List K
  keys [] = []
  keys ((k, v) ∷ m) = k ∷ keys m

  abbrev pub Avoids : K → List (K × V) → Type ℓ
  Avoids k [] = Unit
  Avoids k ((j, v) ∷ m) = (j ≢ k) × Avoids k m

  -- No key twice, which is what the representation of a Go map promises.
  abbrev pub IsMap : List (K × V) → Type ℓ
  IsMap [] = Unit
  IsMap ((k, v) ∷ m) = Avoids k m × IsMap m

  pub Avoids-lookup : (k : K) (m : List (K × V)) → lookup k m ≡ none → Avoids k m
  unfolding lookup
  Avoids-lookup k [] h = tt
  Avoids-lookup k ((j, v) ∷ m) h = ground (arith, e.equal_iff j k, Avoids-lookup k m)

  pub delete_absent : (k : K) (m : List (K × V)) → Avoids k m → delete k m ≡ m
  unfolding delete
  delete_absent k [] h = refl
  delete_absent k ((j, v) ∷ m) h = ground (arith, e.equal_iff j k, delete_absent k m h.1)

  pub keys-insert_absent :
      (k : K) (v : V) (m : List (K × V))
      → lookup k m ≡ none
      → keys (insert k v m) ≡ keys m ++ k ∷ []
  unfolding lookup insert
  keys-insert_absent k v [] h = refl
  keys-insert_absent k v ((j, w) ∷ m) h = ground (arith, keys-insert_absent k v m)

  pub keys-insert_present :
      (k : K) (v w : V) (m : List (K × V)) → lookup k m ≡ some w → keys (insert k v m) ≡ keys m
  unfolding lookup insert
  keys-insert_present k v w [] h = cc
  keys-insert_present k v w ((j, u) ∷ m) h =
      ground (arith, e.equal_iff j k, keys-insert_present k v w m)

  Avoids-insert :
      (j k : K) (v : V) (m : List (K × V)) → k ≢ j → Avoids j m → Avoids j (insert k v m)
  unfolding insert
  Avoids-insert j k v [] n h = (n, tt)
  Avoids-insert j k v ((i, w) ∷ m) n h = ground (arith, Avoids-insert j k v m n h.1)

  pub IsMap-insert : (k : K) (v : V) (m : List (K × V)) → IsMap m → IsMap (insert k v m)
  unfolding insert
  IsMap-insert k v [] h = (tt, tt)
  IsMap-insert k v ((j, w) ∷ m) h = elim (Bool-cases (j == k)) [
    | inl same ↦ rw same (rw (← (e.equal_iff j k).0 same) h.0, h.1)
    | inr other ↦
        rw other (
          Avoids-insert j k v m (λ p. cc ((e.equal_iff j k).1 (sym p))) h.0,
          IsMap-insert k v m h.1,
        )
  ]

  pub delete_head :
      (k : K) (v : V) (m : List (K × V)) → IsMap ((k, v) ∷ m) → delete k ((k, v) ∷ m) ≡ m
  unfolding delete
  delete_head k v m h = rw (beq_refl e k) (delete_absent k m h.0)

  pub length-insert_absent :
      (k : K) (v : V) (m : List (K × V))
      → lookup k m ≡ none
      → length (insert k v m) ≡ suc (length m)
  unfolding lookup insert
  length-insert_absent k v [] h = refl
  length-insert_absent k v ((j, w) ∷ m) h = ground (arith, length-insert_absent k v m)

  pub length-insert_present :
      (k : K) (v w : V) (m : List (K × V)) → lookup k m ≡ some w → length (insert k v m) ≡ length m
  unfolding lookup insert
  length-insert_present k v w [] h = cc
  length-insert_present k v w ((j, u) ∷ m) h = ground (arith, length-insert_present k v w m)

  pub lookup-cons_ne :
      (k j : K) (v : V) (m : List (K × V)) → k ≢ j → lookup j ((k, v) ∷ m) ≡ lookup j m
  unfolding lookup
  lookup-cons_ne k j v m n = ground (arith, e.equal_iff k j)

  pub lookup_of_Avoids : (k : K) (m : List (K × V)) → Avoids k m → lookup k m ≡ none
  unfolding lookup
  lookup_of_Avoids k [] h = refl
  lookup_of_Avoids k ((j, v) ∷ m) h = ground (arith, e.equal_iff j k, lookup_of_Avoids k m h.1)

module _ {ℓ} {V : Type ℓ} where
  unfoldable pub fall_back : Option V → Option V → Option V
  fall_back none d = d
  fall_back (some v) d = some v

module _ {ℓ κ} {K : Type ℓ} {V : Type κ} ⦃e : HasEq K⦄ where
  -- a loop that writes one entry after the other
  unfoldable pub insert_all : List (K × V) → List (K × V) → List (K × V)
  insert_all [] m = m
  insert_all ((k, v) ∷ entries) m = insert_all entries (insert k v m)

  -- the last value written for a key
  unfoldable pub last_value : K → List (K × V) → Option V
  last_value key [] = none
  last_value key ((k, v) ∷ entries) =
      fall_back (last_value key entries) (if k == key then some v else none)

  pub lookup-insert_all :
      (key : K) (entries m : List (K × V))
      → lookup key (insert_all entries m) ≡ fall_back (last_value key entries) (lookup key m)
  unfolding insert_all last_value fall_back
  lookup-insert_all key [] m = refl
  lookup-insert_all key ((k, v) ∷ entries) m =
      ground (arith, lookup-insert_all key entries (insert k v m), lookup-insert k key v m)

module _ {ℓ κ μ} {K : Type ℓ} {V : Type κ} ⦃e : HasEq K⦄ (P : K × V → Type μ) where
  pub All-insert :
      (key : K) (v : V) (m : List (K × V)) → P (key, v) → All P m → All P (insert key v m)
  unfolding insert
  All-insert key v [] p h = (p, tt)
  All-insert key v ((k, w) ∷ m) p h = elim (Bool-cases (k == key)) [
    | inl same ↦ rw same (p, h.1)
    | inr other ↦ rw other (h.0, All-insert key v m p h.1)
  ]
