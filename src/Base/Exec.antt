-- ===== src/Base/Exec.antt =====
-- Functions that change a state and may return an error. What was changed before an error stays
-- changed, so the state comes back beside the error too.
use mathlib.Core.List.{List, [], ◌∷◌}

-- The errors that the program tells apart. The text that `fmt.Errorf` wraps round an error is
-- dropped: `errors.Is` and `errors.As` look through it.
pub data Error : Type 0 where
  -- a database call, a value that `strconv` cannot read, a newer schema
  db_failed corrupt_value newer_schema : Error
  -- `ctx.Err()`
  cancelled : Error
  -- a tagged NO or BAD (`*imap.Error`), any other failure of a connection
  server_no server_bad connection : Error
  -- the producer's error after the consumer has failed
  append_side_failed : Error
  -- no folder has the special-use attribute; a message is gone or empty
  no_such_folder vanished : Error
  -- the rounds given to a loop of the model were not enough; no error of the program
  diverged : Error

pub data Result {ℓ} (A : Type ℓ) : Type ℓ where
  ok : A → Result A
  err : Error → Result A

abbrev pub Exec {ℓ κ} : Type ℓ → Type κ → Type (ℓ ⊔ κ)
Exec S A = S → Result A × S

module _ {ℓ κ} {S : Type ℓ} {A : Type κ} where
  abbrev pub pure : A → Exec S A
  pure a s = (ok a, s)

  abbrev pub raise : Error → Exec S A
  raise e s = (err e, s)

  abbrev pub lift : Result A → Exec S A
  lift r s = (r, s)

  abbrev pub gets : (S → A) → Exec S A
  gets f s = (ok (f s), s)

module _ {ℓ κ ι} {S : Type ℓ} {A : Type κ} {B : Type ι} where
  abbrev pub continue : Result A → (A → Exec S B) → Exec S B
  continue (ok a) f s = f a s
  continue (err e) f s = (err e, s)

  infixl 10 ◌>>=◌ ◌>>◌
  abbrev pub ◌>>=◌ : Exec S A → (A → Exec S B) → Exec S B
  ◌>>=◌ m f s = continue (m s).0 f (m s).1

  abbrev pub ◌>>◌ : Exec S A → Exec S B → Exec S B
  m >> n = m >>= λ _. n

abbrev pub modify {ℓ} : {S : Type ℓ} → (S → S) → Exec S (Unit {0})
modify f s = (ok tt, f s)

-- `for _, x := range xs { … return err … }`
abbrev pub each {ℓ κ} :
    {S : Type ℓ} {A : Type κ} → List A → (A → Exec S (Unit {0})) → Exec S (Unit {0})
each [] f = pure tt
each (x ∷ xs) f = f x >> each xs f
