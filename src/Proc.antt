-- ===== src/Proc.antt =====
-- Methods that change a state and may raise. What was written before a raise stays written, so
-- the state comes back beside the error too; `transaction` is what takes writes back.
pub mod Hoare
use nbte_bridge.Prelude.{List, [], ◌∷◌}
use nbte_bridge.Result.{Error, Result, ok, err}

abbrev pub Proc : Type 0 → Type 0 → Type 0
Proc S A = S → Result A × S

module _ {S A : Type 0} where
  abbrev pub pure : A → Proc S A
  pure a s = (ok a, s)

  abbrev pub raise : Error → Proc S A
  raise e s = (err e, s)

  abbrev pub lift : Result A → Proc S A
  lift r s = (r, s)

  abbrev pub gets : (S → A) → Proc S A
  gets f s = (ok (f s), s)

  -- A query that may raise.
  abbrev pub asks : (S → Result A) → Proc S A
  asks f s = (f s, s)

abbrev pub modify : {S : Type 0} → (S → S) → Proc S (Unit {0})
modify f s = (ok tt, f s)

abbrev pub continue : {S A B : Type 0} → Result A × S → (A → Proc S B) → Result B × S
continue (ok a, s) f = f a s
continue (err e, s) f = (err e, s)

infixl 5 ◌>>=◌ ◌>>◌
abbrev pub ◌>>=◌ : {S A B : Type 0} → Proc S A → (A → Proc S B) → Proc S B
◌>>=◌ m f s = continue (m s) f

abbrev pub ◌>>◌ : {S B : Type 0} → Proc S (Unit {0}) → Proc S B → Proc S B
m >> k = m >>= λ _. k

-- `for x in xs: body(x)`
abbrev pub for_each : {S A : Type 0} → List A → (A → Proc S (Unit {0})) → Proc S (Unit {0})
for_each [] body = pure tt
for_each (x ∷ xs) body = body x >> for_each xs body
