-- ===== src/Svf/Budget/Stops.antt =====
-- A budget that has answered with false stays as it is.
use veritas.Common.{
  ℕ, suc, Bool, true, false, not, List, [], ◌∷◌, ◌++◌, length, replicate, ◌≡◌, refl, sym, ap, ◌∙◌,
  ◌↔◌, inl, inr, Bool-cases, arith,
}
use veritas.Svf.Budget.{SvfBudget, over, Call, perform, run}
use veritas.Svf.Budget.Limits.{perform-Keeps}

run-frozen :
    (cs : List Call) (b : SvfBudget)
    → over b.state.reason ≡ true
    → run cs b ≡ (replicate (length cs) false, b)
unfolding run
run-frozen [] b h = refl
run-frozen (c ∷ cs) b h = rw ((perform-Keeps c b).frozen h, run-frozen cs b h) refl

not-flip : (a b : Bool) → a ≡ not b → b ≡ not a
not-flip true true e = cc e
not-flip true false e = refl
not-flip false true e = refl
not-flip false false e = cc e

over-answer :
    (c : Call) (b : SvfBudget) (a : Bool)
    → (perform c b).0 ≡ a
    → over (perform c b).1.state.reason ≡ not a
over-answer c b a e = not-flip a _ (sym e ∙ (perform-Keeps c b).answer)

-- From a state without a reason for stopping on, the answers to any calls are true some number of times and
-- then false to all that follow, and the budget has a reason for stopping exactly when one of the
-- answers was false.
pub run-stops :
    (cs : List Call) (b : SvfBudget)
    → over b.state.reason ≡ false
    → (n m : ℕ) × ((run cs b).0 ≡ replicate n true ++ replicate m false)
      × ((over (run cs b).1.state.reason ≡ false) ↔ (m ≡ 0))
unfolding run
run-stops [] b h = (0, 0, refl, (λ _. refl, λ _. h))
run-stops (c ∷ cs) b h = elim (Bool-cases (perform c b).0) [
  | inl granted ↦
      let rest = run-stops cs (perform c b).1 (over-answer c b true granted) in
      (suc rest.0, rest.1, rw granted (ap (◌∷◌ true) rest.2), rest.3)
  | inr refused ↦
      let after = over-answer c b false refused in
      let e = run-frozen cs (perform c b).1 after in
      (
        0,
        suc (length cs),
        rw (refused, ap (λ r. r.0) e) refl,
        (
          λ o. cc (sym after ∙ sym (ap (λ r. over r.1.state.reason) e) ∙ o),
          λ z. absurd (omega arith),
        ),
      )
]
