-- ===== src/Go/Action.antt =====
-- Calls that change a state and return a value or an error, and the predicates on the state they keep.
use go_slug.Prelude.{
  ◌≡◌, refl, Result, ok, err, ok-injective, subst, Bool, true, false, if◌then◌else◌,
}

abbrev pub Action : Type 0 → Type 0 → Type 0 → Type 0
Action S E A = S → S × Result E A

abbrev pub continue : {S E A B : Type 0} → (A → Action S E B) → S × Result E A → S × Result E B
continue next (s, err e) = (s, err e)
continue next (s, ok a) = next a s

module _ {S E : Type 0} where
  infixl 5 ◌>>=◌
  unfoldable pub ◌>>=◌ : {A B : Type 0} → Action S E A → (A → Action S E B) → Action S E B
  call >>= next = λ s. continue next (call s)

  -- What the state tells, or refuses.
  unfoldable pub ask : {A : Type 0} → (S → Result E A) → Action S E A
  ask f = λ s. (s, f s)

  abbrev pub return : {A : Type 0} → A → Action S E A
  return a = ask (λ _. ok a)

  abbrev pub fail : {A : Type 0} → E → Action S E A
  fail e = ask (λ _. err e)

-- A call with another error.
unfoldable pub with_error :
    {S E F A B : Type 0} → (Result E A → Result F B) → Action S E A → Action S F B
with_error f call = λ s. let r = call s in (r.0, f (r.1))

module _ {S : Type 0} (P : S → Type 0) where
  -- The predicate holds after the call where it held before, whatever the call returns.
  pub record Keeps {E A : Type 0} (call : Action S E A) : Type 0 where
    pub kept : (s : S) → P s → P ((call s).0)

  module _ {E : Type 0} where
    continue-Keeps :
        {A B : Type 0} (next : A → Action S E B) (r : S × Result E A)
        → P (r.0)
        → ((a : A) → r.1 ≡ ok a → Keeps (next a))
        → P ((continue next r).0)
    continue-Keeps next (s, err e) h k = h
    continue-Keeps next (s, ok a) h k = (k a refl).kept s h

    pub >>=-Keeps :
        {A B : Type 0} {call : Action S E A} {next : A → Action S E B}
        → Keeps call
        → ((a : A) (s : S) → (call s).1 ≡ ok a → Keeps (next a))
        → Keeps (call >>= next)
    unfolding ◌>>=◌
    >>=-Keeps {call = call} {next = next} h k = record {
      kept = λ s p. continue-Keeps next (call s) (h.kept s p) (λ a e. k a s e);
    }

    -- A call that leaves the state as it is.
    pub ask-Keeps : {A : Type 0} (f : S → Result E A) → Keeps (ask f)
    unfolding ask
    ask-Keeps f = record { kept = λ s p. p }

    pub if-Keeps :
        {A : Type 0} (b : Bool) {x y : Action S E A}
        → Keeps x
        → Keeps y
        → Keeps (if b then x else y)
    if-Keeps true h k = h
    if-Keeps false h k = k

  pub with_error-Keeps :
      {E F A B : Type 0} (f : Result E A → Result F B) {call : Action S E A}
      → Keeps call
      → Keeps (with_error f call)
  unfolding with_error
  with_error-Keeps f h = record { kept = h.kept }

continue-returns :
    {S E A B : Type 0} (next : A → Action S E B) (r : S × Result E A) {b : B}
    → (continue next r).1 ≡ ok b
    → (a : A) × (r.1 ≡ ok a) × ((next a (r.0)).1 ≡ ok b)
continue-returns next (s, err e) h = cc h
continue-returns next (s, ok a) h = (a, refl, h)

-- A chain that returned: both of its parts did.
pub >>=-returns :
    {S E A B : Type 0} (call : Action S E A) (next : A → Action S E B) (s : S) {b : B}
    → ((call >>= next) s).1 ≡ ok b
    → (a : A) × ((call s).1 ≡ ok a) × ((next a ((call s).0)).1 ≡ ok b)
unfolding ◌>>=◌
>>=-returns call next s h = continue-returns next (call s) h

module _ {S E A : Type 0} (Q : A → Type 0) where
  -- What the call returns has the property.
  pub record Gives (call : Action S E A) : Type 0 where
    pub given : (s : S) (a : A) → (call s).1 ≡ ok a → Q a

  pub >>=-Gives :
      {B : Type 0} (call : Action S E B) {next : B → Action S E A}
      → ((b : B) (s : S) → (call s).1 ≡ ok b → Gives (next b))
      → Gives (call >>= next)
  >>=-Gives call {next = next} h = record {
    given = λ s a e. let (b, k, l) = >>=-returns call next s e in (h b s k).given ((call s).0) a l;
  }

  pub return-Gives : (a : A) → Q a → Gives (return a)
  unfolding ask
  return-Gives a q = record { given = λ s b e. subst Q (ok-injective {E = E} e) q }

  pub fail-Gives : (e : E) → Gives (fail e)
  unfolding ask
  fail-Gives e = record { given = λ s b h. cc h }

  pub if-Gives : (b : Bool) {x y : Action S E A} → Gives x → Gives y → Gives (if b then x else y)
  if-Gives true h k = h
  if-Gives false h k = k
