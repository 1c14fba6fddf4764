-- ===== src/Prelude/Entries.antt =====
-- The entries of a map, each key once, and what the map gives for a key.
use mathlib.Core.Path.{◌≡◌, refl, sym, ap, subst}
use mathlib.Core.Logic.{◌≢◌, inl, inr}
use mathlib.Core.Option.{some}
use mathlib.Core.List.{[], ◌∷◌}
use go_slug.Prelude.Lists.{In, All}
use go_slug.Prelude.Maps.{Assoc, choose, lookup, remove, entries}

module _ {K V : Type 0} (eq : Discrete K) where
  pub lookup-here : (k : K) (v : V) (m : Assoc K V) → lookup eq k ((k, v) ∷ m) ≡ some v
  lookup-here k v m = go (eq k k)
    where
      go : (d : Dec (k ≡ k)) → choose d (some v) (lookup eq k m) ≡ some v
      go (yes _) = refl
      go (no n) = absurd (n refl)

  pub lookup-there :
      (j k : K) (v : V) (m : Assoc K V) → j ≢ k → lookup eq k ((j, v) ∷ m) ≡ lookup eq k m
  lookup-there j k v m h = go (eq j k)
    where
      go : (d : Dec (j ≡ k)) → choose d (some v) (lookup eq k m) ≡ lookup eq k m
      go (yes e) = absurd (h e)
      go (no n) = refl

  In-remove : (k j : K) (v : V) (m : Assoc K V) → In (j, v) (remove eq k m) → (k ≢ j) × In (j, v) m
  In-remove k j v [] h = absurd h
  In-remove k j v ((i, u) ∷ m) h = go (eq i k) h (In-remove k j v m)
    where
      go :
          (d : Dec (i ≡ k))
          → In (j, v) (choose d (remove eq k m) ((i, u) ∷ remove eq k m))
          → (In (j, v) (remove eq k m) → (k ≢ j) × In (j, v) m)
          → (k ≢ j) × In (j, v) ((i, u) ∷ m)
      go (yes _) h rest = let (x, y) = rest h in (x, inr y)
      go (no n) (inl e) rest = ((λ same. n (cc (same, ap (λ q. q.0) e))), inl e)
      go (no n) (inr h) rest = let (x, y) = rest h in (x, inr y)

  In-removed : (k j : K) (v : V) (m : Assoc K V) → k ≢ j → In (j, v) m → In (j, v) (remove eq k m)
  In-removed k j v [] n h = absurd h
  In-removed k j v ((i, u) ∷ m) n h = go (eq i k) h (In-removed k j v m n)
    where
      go :
          (d : Dec (i ≡ k))
          → In (j, v) ((i, u) ∷ m)
          → (In (j, v) m → In (j, v) (remove eq k m))
          → In (j, v) (choose d (remove eq k m) ((i, u) ∷ remove eq k m))
      go (yes e) (inl same) rest = absurd (n (cc (e, ap (λ q. q.0) same)))
      go (yes _) (inr h) rest = rest h
      go (no _) (inl same) rest = inl same
      go (no _) (inr h) rest = inr (rest h)

  pub In-entries :
      (k : K) (v : V) (m : Assoc K V) → lookup eq k m ≡ some v → In (k, v) (entries eq m)
  In-entries k v [] h = cc h
  In-entries k v ((j, u) ∷ m) h = go (eq j k) h (In-entries k v m)
    where
      go :
          (d : Dec (j ≡ k))
          → choose d (some u) (lookup eq k m) ≡ some v
          → (lookup eq k m ≡ some v → In (k, v) (entries eq m))
          → In (k, v) ((j, u) ∷ remove eq j (entries eq m))
      go (yes e) h rest = inl (cc (e, h))
      go (no n) h rest = inr (In-removed j k v (entries eq m) n (rest h))

  pub lookup_of_entries :
      (k : K) (v : V) (m : Assoc K V) → In (k, v) (entries eq m) → lookup eq k m ≡ some v
  lookup_of_entries k v [] h = absurd h
  lookup_of_entries k v ((j, u) ∷ m) (inl e) =
      subst (λ q. lookup eq q.0 ((j, u) ∷ m) ≡ some q.1) (sym e) (lookup-here j u m)
  lookup_of_entries k v ((j, u) ∷ m) (inr h) =
      let (n, rest) = In-remove j k v (entries eq m) h in
      rw (lookup-there j k u m n) (lookup_of_entries k v m rest)

-- What a map gives for a key is in an entry of that key.
pub lookup-entry :
    {K V : Type 0} (eq : Discrete K) (P : K → V → Type 0) (k : K) (m : Assoc K V) {v : V}
    → All (λ e. P e.0 e.1) m
    → lookup eq k m ≡ some v
    → P k v
lookup-entry eq P k [] h e = cc e
lookup-entry eq P k ((j, u) ∷ m) {v} h e = go (eq j k) e (lookup-entry eq P k m h.1)
  where
    go :
        (d : Dec (j ≡ k))
        → choose d (some u) (lookup eq k m) ≡ some v
        → (lookup eq k m ≡ some v → P k v)
        → P k v
    go (yes same) e rest = subst (λ x. P x v) same (subst (P j) (cc e) h.0)
    go (no _) e rest = rest e

-- What a map gives is one of its values.
pub lookup-All :
    {K V : Type 0} (eq : Discrete K) (P : V → Type 0) (k : K) (m : Assoc K V) {v : V}
    → All (λ e. P e.1) m
    → lookup eq k m ≡ some v
    → P v
lookup-All eq P k m h e = lookup-entry eq (λ _. P) k m h e
