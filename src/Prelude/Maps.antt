-- ===== src/Prelude/Maps.antt =====
-- Python's `dict` as an association list in insertion order: an assignment to a key that is there
-- keeps its place, a new key goes to the end. Keys are compared by an instance of `Eq`.
use Prim.Native.Nat.{ℕ, ◌+◌, ◌≤◌}
use Prim.Native.String.{String}
use mathlib.Core.Path.{◌≡◌, refl, subst₂}
use mathlib.Core.Bool.{Bool, true, false}
use mathlib.Core.Logic.{◌↔◌, inl, inr}
use mathlib.Core.List.{List, [], ◌∷◌}
use mathlib.Core.Option.{Option, none, some}
use native.Mathlib.Omega.{arith}
use text.Mathlib.Text.{◌==◌ as str_eq}
use text.Mathlib.TextEquality.{eq_iff}
use fed_lo_ra_public.Prelude.Tests.{◌==◌ as nat_beq, ==_iff, if◌then◌else◌, Bool-cases}
use fed_lo_ra_public.Prelude.Lists.{length, All}

pub record Eq {ℓ} (A : Type ℓ) : Type ℓ where
  pub beq : A → A → Bool
  pub beq_iff : (a b : A) → (beq a b ≡ true) ↔ (a ≡ b)

instance abbrev pub nat_eq : Eq ℕ
nat_eq = record { beq = nat_beq; beq_iff = ==_iff }

instance abbrev pub string_eq : Eq String
string_eq = record { beq = str_eq; beq_iff = eq_iff }

pub beq_refl {ℓ} : {K : Type ℓ} ⦃e : Eq K⦄ (k : K) → e.beq k k ≡ true
beq_refl ⦃e⦄ k = (e.beq_iff k k).1 refl

abbrev pub Dict {ℓ κ} : Type ℓ → Type κ → Type (ℓ ⊔ κ)
Dict K V = List (K × V)

module _ {ℓ κ} {K : Type ℓ} {V : Type κ} where
  -- list(d.keys()), list(d.values())
  abbrev pub keys : Dict K V → List K
  keys [] = []
  keys ((k, v) ∷ d) = k ∷ keys d

  abbrev pub values : Dict K V → List V
  values [] = []
  values ((k, v) ∷ d) = v ∷ values d

module _ {ℓ κ} {K : Type ℓ} {V : Type κ} ⦃e : Eq K⦄ where
  -- d.get(k)
  unfoldable pub lookup : K → Dict K V → Option V
  lookup k [] = none
  lookup k ((j, v) ∷ d) = if e.beq j k then some v else lookup k d

  -- d.get(k, default)
  abbrev pub lookup_or : V → K → Dict K V → V
  lookup_or default k d = elim (lookup k d) [ none ↦ default | some v ↦ v ]

  -- k in d
  abbrev pub has_key : K → Dict K V → Bool
  has_key k d = elim (lookup k d) [ none ↦ false | some v ↦ true ]

  -- d[k] = v
  unfoldable pub insert : K → V → Dict K V → Dict K V
  insert k v [] = (k, v) ∷ []
  insert k v ((j, w) ∷ d) = if e.beq j k then (j, v) ∷ d else (j, w) ∷ insert k v d

  -- d.pop(k, None): the entries of every other key
  unfoldable pub remove : K → Dict K V → Dict K V
  remove k [] = []
  remove k ((j, w) ∷ d) = if e.beq j k then remove k d else (j, w) ∷ remove k d

  pub lookup-nil : (k : K) → lookup k [] ≡ none
  unfolding lookup
  lookup-nil k = refl

  pub lookup-insert :
      (k j : K) (v : V) (d : Dict K V)
      → lookup j (insert k v d) ≡ (if e.beq k j then some v else lookup j d)
  unfolding lookup insert
  lookup-insert k j v [] = refl
  lookup-insert k j v ((i, w) ∷ d) =
      ground (arith, e.beq_iff k j, e.beq_iff i k, e.beq_iff i j, lookup-insert k j v d)

  pub lookup-remove :
      (k j : K) (d : Dict K V) → lookup j (remove k d) ≡ (if e.beq k j then none else lookup j d)
  unfolding lookup remove
  lookup-remove k j [] = ground arith
  lookup-remove k j ((i, w) ∷ d) =
      ground (arith, e.beq_iff k j, e.beq_iff i k, e.beq_iff i j, lookup-remove k j d)

  -- What holds of every entry holds of one that is found.
  pub lookup_all {μ} :
      (P : K → V → Type μ) (d : Dict K V) (k : K) (v : V)
      → All (λ en. P en.0 en.1) d
      → lookup k d ≡ some v
      → P k v
  unfolding lookup
  lookup_all P [] k v h found = cc
  lookup_all P ((j, w) ∷ d) k v h found = elim (Bool-cases (e.beq j k)) [
    | inl same ↦ let value : w ≡ v = ground arith in subst₂ P ((e.beq_iff j k).0 same) value h.0
    | inr other ↦ lookup_all P d k v h.1 (ground arith)
  ]

  -- An assignment adds at most one entry.
  pub length-insert-le : (k : K) (v : V) (d : Dict K V) → length (insert k v d) ≤ length d + 1
  unfolding insert
  length-insert-le k v [] = omega arith
  length-insert-le k v ((j, w) ∷ d) = ground (arith, length-insert-le k v d)

  pub length-le-insert : (k : K) (v : V) (d : Dict K V) → length d ≤ length (insert k v d)
  unfolding insert
  length-le-insert k v [] = omega arith
  length-le-insert k v ((j, w) ∷ d) = ground (arith, length-le-insert k v d)

  pub keys-insert_old :
      (k : K) (v : V) (d : Dict K V) → has_key k d ≡ true → keys (insert k v d) ≡ keys d
  unfolding lookup insert
  keys-insert_old k v [] h = ground arith
  keys-insert_old k v ((j, w) ∷ d) h = ground (arith, keys-insert_old k v d)

pub ruleset dict_laws = (lookup-insert, lookup-remove, beq_refl)
