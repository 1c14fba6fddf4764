-- ===== src/Prelude/Maps.antt =====
-- Go maps as association lists under a decided equality of keys: the first entry of a key counts.
use mathlib.Core.Path.{◌≡◌, refl}
use mathlib.Core.Logic.{◌≢◌}
use mathlib.Core.Bool.{Bool, true, false}
use mathlib.Core.Option.{Option, none, some}
use mathlib.Core.List.{List, [], ◌∷◌}
use go_slug.Prelude.Lists.{All}

abbrev pub Assoc {ℓ κ} : Type ℓ → Type κ → Type (ℓ ⊔ κ)
Assoc K V = List (K × V)

-- One of two values, by a decision.
abbrev pub choose {ℓ κ} : {P : Type ℓ} {A : Type κ} → Dec P → A → A → A
choose (yes _) a b = a
choose (no _) a b = b

module _ {ℓ κ} {K : Type ℓ} {V : Type κ} (eq : Discrete K) where
  abbrev pub lookup : K → Assoc K V → Option V
  lookup k [] = none
  lookup k ((j, v) ∷ m) = choose (eq j k) (some v) (lookup k m)

  -- m[k] = v
  abbrev pub insert : K → V → Assoc K V → Assoc K V
  insert k v m = (k, v) ∷ m

  abbrev pub remove : K → Assoc K V → Assoc K V
  remove k [] = []
  remove k ((j, v) ∷ m) = let rest = remove k m in choose (eq j k) rest ((j, v) ∷ rest)

  -- A loop over the map: each key once, with its value.
  abbrev pub entries : Assoc K V → Assoc K V
  entries [] = []
  entries ((k, v) ∷ m) = (k, v) ∷ remove k (entries m)

  -- A key that has a value keeps one.
  pub lookup-insert_known :
      (k j : K) (v : V) (m : Assoc K V) {u : V}
      → lookup j m ≡ some u
      → (x : V) × (lookup j (insert k v m) ≡ some x)
  lookup-insert_known k j v m {u} h = go (eq k j)
    where
      go : (d : Dec (k ≡ j)) → (x : V) × (choose d (some v) (lookup j m) ≡ some x)
      go (yes _) = (v, refl)
      go (no _) = (u, h)

  pub lookup-insert_self : (k : K) (v : V) (m : Assoc K V) → lookup k (insert k v m) ≡ some v
  lookup-insert_self k v m = go (eq k k)
    where
      go : (d : Dec (k ≡ k)) → choose d (some v) (lookup k m) ≡ some v
      go (yes _) = refl
      go (no n) = absurd (n refl)

module _ {ℓ} {A : Type ℓ} (eq : Discrete A) where
  -- Membership as a test.
  abbrev pub member : A → List A → Bool
  member x [] = false
  member x (y ∷ l) = choose (eq x y) true (member x l)

  -- What the test does not find is no element.
  pub member-All : (x : A) (l : List A) → member x l ≡ false → All (λ y. x ≢ y) l
  member-All x [] h = tt
  member-All x (y ∷ l) h = (head (eq x y) h, member-All x l (rest (eq x y) h))
    where
      head : (d : Dec (x ≡ y)) → choose d true (member x l) ≡ false → x ≢ y
      head (yes _) h = cc h
      head (no n) h = n

      rest : (d : Dec (x ≡ y)) → choose d true (member x l) ≡ false → member x l ≡ false
      rest (yes _) h = cc h
      rest (no n) h = h
