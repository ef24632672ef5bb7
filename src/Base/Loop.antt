-- ===== src/Base/Loop.antt =====
-- The shape of the program's `while (true) { switch … }` loops: a step function that goes on with a
-- new state or returns, run on fuel. `stuck` is a step whose own inner loop ran out of fuel.
use Prim.Native.Nat.{ℕ, zero, suc, ◌+◌, ◌≤◌, ◌<◌}
use mathlib.Core.Path.{◌≡◌, refl, sym, subst, ◌∙◌}
use native.Mathlib.Numerals.{add-one}
use mathlib.Core.Option.{Option, none, some, some-injective, none-ne-some}
use mathlib.Core.Logic.{◌⊎◌, inl, inr}
use native.Mathlib.Omega.{arith}

pub data Step {ℓ κ} (S : Type ℓ) (R : Type κ) : Type (ℓ ⊔ κ) where
  next : S → Step S R
  stop : R → Step S R
  stuck : Step S R

module _ {ℓ κ} {S : Type ℓ} {R : Type κ} where
  -- `none` means that the fuel ran out.
  unfoldable pub loop : ℕ → (S → Step S R) → S → Option R
  loop zero step s = none
  loop (suc fuel) step s = elim (step s) [
    | next s' ↦ loop fuel step s'
    | stop r ↦ some r
    | stuck ↦ none
  ]

  -- What a step does to the measure: it falls, and no inner loop runs out.
  abbrev pub Descends : (S → ℕ) → S → Step S R → Type 0
  Descends measure s (next s') = measure s' < measure s
  Descends measure s (stop r) = Unit {0}
  Descends measure s stuck = ⊥

  -- What holds of the next state or of the result.
  abbrev pub After {μ} : (S → Type μ) → (R → Type μ) → Step S R → Type μ
  After P Q (next s) = P s
  After P Q (stop r) = Q r
  After P Q stuck = Unit

  pub loop_next :
      (fuel : ℕ) (step : S → Step S R) (s : S) {s' : S}
      → step s ≡ next s'
      → loop (suc fuel) step s ≡ loop fuel step s'
  unfolding loop
  loop_next fuel step s e = rw (e, loop)

  pub loop_stop :
      (fuel : ℕ) (step : S → Step S R) (s : S) {r : R}
      → step s ≡ stop r
      → loop (suc fuel) step s ≡ some r
  unfolding loop
  loop_stop fuel step s e = rw (e, loop)

  loop_total_case :
      (measure : S → ℕ) (step : S → Step S R) (s : S) (fuel : ℕ) (x : Step S R)
      → step s ≡ x
      → Descends measure s x
      → ((s' : S)
          → step s ≡ next s'
          → measure s' < measure s
          → (r : R) × (loop fuel step s' ≡ some r))
      → (r : R) × (loop (suc fuel) step s ≡ some r)
  unfolding loop
  loop_total_case measure step s fuel (next s') e d ih =
      let (r, h) = ih s' e d in (r, rw (e, loop) h)
  loop_total_case measure step s fuel (stop r) e d ih = (r, rw (e, loop))
  loop_total_case measure step s fuel stuck e d ih = absurd d

  -- Enough fuel gives a result, for a measure that falls at the states of an invariant.
  pub loop_total {μ} :
      (P : S → Type μ) (measure : S → ℕ) (step : S → Step S R)
      → ((s : S) → P s → Descends measure s (step s))
      → ((s s' : S) → P s → step s ≡ next s' → P s')
      → (fuel : ℕ) (s : S) → P s
      → measure s < fuel
      → (r : R) × (loop fuel step s ≡ some r)
  loop_total P measure step descends keeps zero s p h = absurd (omega arith)
  loop_total P measure step descends keeps (suc fuel) s p h =
      loop_total_case measure step s fuel (step s) refl (descends s p)
        (λ s' e d. loop_total P measure step descends keeps fuel s' (keeps s s' p e) (omega arith))

  loop_more_case :
      (step : S → Step S R) (s : S) (f g : ℕ) {r : R} (x : Step S R)
      → step s ≡ x
      → ((s' : S) → loop f step s' ≡ some r → loop g step s' ≡ some r)
      → loop (suc f) step s ≡ some r
      → loop (suc g) step s ≡ some r
  unfolding loop
  loop_more_case step s f g (next s') e ih h = rw (e, loop) (ih s' (rw (e, loop) at h))
  loop_more_case step s f g (stop r') e ih h = rw (e, loop) (rw (e, loop) at h)
  loop_more_case step s f g stuck e ih h = rw (e, loop) (rw (e, loop) at h)

  -- More fuel gives the same result.
  pub loop_more :
      (f g : ℕ) (step : S → Step S R) (s : S) {r : R}
      → f ≤ g
      → loop f step s ≡ some r
      → loop g step s ≡ some r
  unfolding loop
  loop_more zero g step s le h = cc
  loop_more (suc f) zero step s le h = elim le [ ]
  loop_more (suc f) (suc g) step s le h =
      loop_more_case step s f g (step s) refl (λ s' h'. loop_more f g step s' (omega arith) h') h

  loop_inv_case {μ} :
      (P : S → Type μ) (Q : R → Type μ) (step : S → Step S R) (s : S) (f : ℕ) {r : R} (x : Step S R)
      → step s ≡ x
      → After P Q x
      → ((s' : S) → P s' → loop f step s' ≡ some r → Q r)
      → loop (suc f) step s ≡ some r
      → Q r
  unfolding loop
  loop_inv_case P Q step s f (next s') e a ih h = ih s' a (rw (e, loop) at h)
  loop_inv_case P Q step s f (stop r') e a ih h =
      let e' : some r' ≡ some _ = rw (e, loop) at h in subst Q (some-injective _ _ e') a
  loop_inv_case P Q step s f stuck e a ih h = absurd (none-ne-some _ (rw (e, loop) at h))

  -- The invariant rule.
  pub loop_inv {μ} :
      (P : S → Type μ) (Q : R → Type μ) (step : S → Step S R)
      → ((s : S) → P s → After P Q (step s))
      → (f : ℕ) (s : S) {r : R} → P s
      → loop f step s ≡ some r
      → Q r
  unfolding loop
  loop_inv P Q step keep zero s p h = absurd (none-ne-some _ h)
  loop_inv P Q step keep (suc f) s p h =
      loop_inv_case P Q step s f (step s) refl (keep s p)
        (λ s' p' h'. loop_inv P Q step keep f s' p' h') h

  -- A loop with the fuel that a measure gives, after one step.
  abbrev pub resume : (S → ℕ) → (S → Step S R) → Step S R → Option R
  resume measure step (next s) = loop (measure s + 1) step s
  resume measure step (stop r) = some r
  resume measure step stuck = none

  loop-resume_case :
      (measure : S → ℕ) (step : S → Step S R)
      → ((s : S) → Descends measure s (step s))
      → (s : S) (x : Step S R) → step s ≡ x
      → Descends measure s x
      → loop (suc (measure s)) step s ≡ resume measure step x
  unfolding loop
  loop-resume_case measure step descends s (next s') e d =
      let (r, h) =
        loop_total (λ _. Unit {0}) measure step (λ t _. descends t) (λ _ _ _ _. tt) (measure s' + 1)
          s' tt (omega arith) in
      rw (e, loop) (loop_more (measure s' + 1) (measure s) step s' (omega arith) h ∙ sym h)
  loop-resume_case measure step descends s (stop r) e d = rw (e, loop)
  loop-resume_case measure step descends s stuck e d = rw (e, loop)

  -- With a measure that always falls, one step of the loop can be taken out of it.
  pub loop-resume :
      (measure : S → ℕ) (step : S → Step S R)
      → ((s : S) → Descends measure s (step s))
      → (s : S) → loop (measure s + 1) step s ≡ resume measure step (step s)
  loop-resume measure step descends s =
      rw add-one (loop-resume_case measure step descends s (step s) refl (descends s))

  -- What a step does to the measure, where an inner loop may run out.
  abbrev pub Falls : (S → ℕ) → S → Step S R → Type 0
  Falls measure s (next s') = measure s' < measure s
  Falls measure s (stop r) = Unit {0}
  Falls measure s stuck = Unit {0}

module _ {S R : Type 0} where
  -- A run of so many rounds, from a state to a state.
  abbrev pub Rounds : (S → Step S R) → ℕ → S → S → Type 0
  Rounds step zero s s' = s ≡ s'
  Rounds step (suc n) s s' = (t : S) × (step s ≡ next t) × Rounds step n t s'

  -- What holds of the result, or where an inner loop ran out.
  abbrev pub Settles {μ} : (R → Type μ) → Type μ → Step S R → Type μ
  Settles Q W (next s) = Unit
  Settles Q W (stop r) = Q r
  Settles Q W stuck = W

  -- How the loop from a state ends after some rounds: with a result, or in an inner loop.
  abbrev pub Ends : (S → Step S R) → ℕ → S → S → Type 0
  Ends step fuel s s' =
      ((r : R) × (step s' ≡ stop r) × (loop fuel step s ≡ some r)) ⊎ (step s' ≡ stuck)

  -- The rounds in front of the end, which the measure counts.
  abbrev pub Decided {μ} : (S → Type μ) → (S → ℕ) → (S → Step S R) → ℕ → S → Type μ
  Decided P measure step fuel s =
      (n : ℕ) × (s' : S) × (Rounds step n s s'
        × ((n + measure s' ≤ measure s) × (P s' × Ends step fuel s s')))

  loop-Decided_case {μ} :
      (P : S → Type μ) (measure : S → ℕ) (step : S → Step S R) (fuel : ℕ) (s : S) (x : Step S R)
      → P s
      → step s ≡ x
      → Falls measure s x
      → ((s' : S) → step s ≡ next s' → measure s' < measure s → Decided P measure step fuel s')
      → Decided P measure step (suc fuel) s
  unfolding loop
  loop-Decided_case P measure step fuel s (next s') p e d ih =
      let (n, y, (rounds, (le, (q, ends)))) = ih s' e d in
      (
        suc n,
        y,
        (
          (s', e, rounds),
          (
            omega arith,
            (
              q,
              elim ends [
                | inl (r, stops, run) ↦ inl (r, stops, rw (e, loop) run)
                | inr waits ↦ inr waits
              ],
            ),
          ),
        ),
      )
  loop-Decided_case P measure step fuel s (stop r) p e d ih =
      (zero, s, (refl, (omega arith, (p, inl (r, e, rw (e, loop) refl)))))
  loop-Decided_case P measure step fuel s stuck p e d ih =
      (zero, s, (refl, (omega arith, (p, inr e))))

  -- With fuel above a measure that falls, the loop ends, after as many rounds as the measure at
  -- most: with a result, or because an inner loop runs out.
  pub loop-Decided {μ} :
      (P : S → Type μ) (measure : S → ℕ) (step : S → Step S R)
      → ((s : S) → P s → Falls measure s (step s))
      → ((s s' : S) → P s → step s ≡ next s' → P s')
      → (fuel : ℕ) (s : S) → P s
      → measure s < fuel
      → Decided P measure step fuel s
  loop-Decided P measure step falls keeps zero s p h = absurd (omega arith)
  loop-Decided P measure step falls keeps (suc fuel) s p h =
      loop-Decided_case P measure step fuel s (step s) p refl (falls s p)
        (λ s' e d. loop-Decided P measure step falls keeps fuel s' (keeps s s' p e) (omega arith))
