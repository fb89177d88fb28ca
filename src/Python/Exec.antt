-- ===== src/Python/Exec.antt =====
-- Code that may raise and that changes a state. What was done before a raise stays done, so the
-- state comes back beside the exception too.
use esphome_rf_cloner.Base.{List, [], ◌∷◌, true, false, ◌≡◌, refl, ap}
use esphome_rf_cloner.Python.Result.{Result, ok, err, Exception, is_home_assistant_error}

abbrev pub Exec {ℓ κ} : Type ℓ → Type κ → Type (ℓ ⊔ κ)
Exec S A = S → Result A × S

module _ {ℓ κ} {S : Type ℓ} {A : Type κ} where
  abbrev pub pure : A → Exec S A
  pure a s = (ok a, s)

  abbrev pub raise : Exception → Exec S A
  raise e s = (err e, s)

  abbrev pub lift : Result A → Exec S A
  lift r s = (r, s)

  abbrev pub gets : (S → A) → Exec S A
  gets f s = (ok (f s), s)

module _ {ℓ κ μ} {S : Type ℓ} {A : Type κ} {B : Type μ} where
  abbrev pub continue : Result A → (A → Exec S B) → Exec S B
  continue (ok a) f s = f a s
  continue (err e) f s = (err e, s)

  infixl 5 ◌>>=◌ ◌>>◌
  abbrev pub ◌>>=◌ : Exec S A → (A → Exec S B) → Exec S B
  ◌>>=◌ m f s = let (r, s') = m s in continue r f s'

  abbrev pub ◌>>◌ : Exec S A → Exec S B → Exec S B
  m >> k = m >>= λ _. k

-- `for x in xs: await f(x)`
unfoldable pub for_each {ℓ κ} :
    {S : Type ℓ} {A : Type κ} → (A → Exec S (Unit {0})) → List A → Exec S (Unit {0})
for_each f [] = pure tt
for_each f (x ∷ xs) = do f x; for_each f xs

abbrev handle {ℓ κ} : {S : Type ℓ} {A : Type κ} → Result A → (Exception → Exec S A) → Exec S A
handle (ok a) handler s = (ok a, s)
handle (err e) handler s = elim (is_home_assistant_error e) [
  | true ↦ handler e s
  | false ↦ (err e, s)
]

-- `try: m  except HomeAssistantError as err: handler(err)`
unfoldable pub catching {ℓ κ} :
    {S : Type ℓ} {A : Type κ} → Exec S A → (Exception → Exec S A) → Exec S A
unfolding is_home_assistant_error
catching m handler s = let (r, s') = m s in handle r handler s'

module _ {ℓ κ μ} {S : Type ℓ} {A : Type κ} {B : Type μ} where
  -- A step that has returned is followed by the rest.
  continue-eq-ok :
      (r : Result A) (f : A → Exec S B) (s : S) {b : B} {s' : S}
      → continue r f s ≡ (ok b, s')
      → (a : A) × (r ≡ ok a) × (f a s ≡ (ok b, s'))
  continue-eq-ok (ok a) f s h = (a, refl, h)
  continue-eq-ok (err e) f s h = cc (ap (λ (ρ : Result B × S). ρ.0) h)

  -- The steps of a run that has returned.
  pub >>=-eq-ok :
      (m : Exec S A) (f : A → Exec S B) (s : S) {b : B} {s' : S}
      → (m >>= f) s ≡ (ok b, s')
      → (a : A) × (s₁ : S) × (m s ≡ (ok a, s₁)) × (f a s₁ ≡ (ok b, s'))
  >>=-eq-ok m f s h =
      let (r, s₁) = m s in
      let (a, e, k) = continue-eq-ok r f s₁ h in (a, s₁, ap (λ r. (r, s₁)) e, k)

  -- What holds of the state where a step has raised, and where the rest ends.
  pub continue-holds :
      (Q : S → Type κ) (r : Result A) (f : A → Exec S B) (s : S)
      → Q s
      → ((a : A) → r ≡ ok a → Q (f a s).1)
      → Q (continue r f s).1
  continue-holds Q (ok a) f s raised returned = returned a refl
  continue-holds Q (err e) f s raised returned = raised
