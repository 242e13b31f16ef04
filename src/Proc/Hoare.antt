-- ===== src/Proc/Hoare.antt =====
-- What a method guarantees: `Post Q E` of its outcome, with `Q` where it returns and `E` where it
-- raises, and one rule for each way to build a method.
use nbte_bridge.Prelude.{◌≡◌, refl, Bool, true, false, List, [], ◌∷◌, if◌then◌else◌}
use nbte_bridge.Result.{Result, ok, err}
use nbte_bridge.Proc.{Proc, lift, asks, continue, ◌>>=◌, for_each}

abbrev pub Post : {S A : Type 0} → (A → S → Type 0) → (S → Type 0) → Result A × S → Type 0
Post Q E (ok a, s) = Q a s
Post Q E (err e, s) = E s

module _ {S A B : Type 0} (Q : A → S → Type 0) (R : B → S → Type 0) (E : S → Type 0) where
  pub Post-bind :
      (out : Result A × S) (f : A → Proc S B)
      → Post Q E out
      → ((a : A) (s : S) → Q a s → Post R E (f a s))
      → Post R E (continue out f)
  Post-bind (ok a, s) f h next = next a s h
  Post-bind (err e, s) f h next = h

module _ {S A B : Type 0} (R : B → S → Type 0) (E : S → Type 0) where
  -- A value that another program answers: the state stays.
  pub Post-lift :
      (r : Result A) (f : A → Proc S B) (s : S)
      → E s
      → ((a : A) → r ≡ ok a → Post R E (f a s))
      → Post R E ((lift r >>= f) s)
  Post-lift (ok a) f s h next = next a refl
  Post-lift (err e) f s h next = h

module _ {S A : Type 0} (Q : A → S → Type 0) (E : S → Type 0) where
  pub Post-if :
      (b : Bool) (m n : Proc S A) (s : S)
      → (b ≡ true → Post Q E (m s))
      → (b ≡ false → Post Q E (n s))
      → Post Q E ((if b then m else n) s)
  Post-if true m n s hm hn = hm refl
  Post-if false m n s hm hn = hn refl

  pub Post-map :
      (Q' : A → S → Type 0) (E' : S → Type 0) (out : Result A × S)
      → Post Q E out
      → ((a : A) (s : S) → Q a s → Q' a s)
      → ((s : S) → E s → E' s)
      → Post Q' E' out
  Post-map Q' E' (ok a, s) h fq fe = fq a s h
  Post-map Q' E' (err e, s) h fq fe = fe s h

-- An invariant holds after a method, returning or raising.
abbrev pub Keeps : {S A : Type 0} → (S → Type 0) → Proc S A → Type 0
Keeps P m = (s : _) → P s → Post (λ _ t. P t) P (m s)

module _ {S : Type 0} (P : S → Type 0) where
  pub Keeps_state : {A : Type 0} (out : Result A × S) → Post (λ _ t. P t) P out → P out.1
  Keeps_state (ok a, s) h = h
  Keeps_state (err e, s) h = h

  pub Keeps-for_each :
      {A : Type 0} (xs : List A) (body : A → Proc S (Unit {0}))
      → ((x : A) → Keeps P (body x))
      → Keeps P (for_each xs body)
  Keeps-for_each [] body keep s h = h
  Keeps-for_each (x ∷ xs) body keep s h =
      Post-bind (λ _ t. P t) (λ _ t. P t) P (body x s) (λ _. for_each xs body) (keep x s h)
        (λ _ t p. Keeps-for_each xs body keep t p)

  pub Keeps-bind :
      {A B : Type 0} (m : Proc S A) (k : A → Proc S B)
      → Keeps P m
      → ((a : A) → Keeps P (k a))
      → Keeps P (m >>= k)
  Keeps-bind m k first next s h =
      Post-bind (λ _ t. P t) (λ _ t. P t) P (m s) k (first s h) (λ a t p. next a t p)

  pub Keeps-asks : {A : Type 0} (f : S → Result A) → Keeps P (asks f)
  Keeps-asks f s h = go (f s)
    where
      go : {A : Type 0} (r : Result A) → Post (λ _ t. P t) P (r, s)
      go (ok a) = h
      go (err e) = h

  pub Keeps-lift : {A : Type 0} (r : Result A) → Keeps P (lift r)
  Keeps-lift (ok a) s h = h
  Keeps-lift (err e) s h = h
