-- ===== src/Summarydb/Impact/Sound.antt =====
-- What the traversal collects is affected by the change, and is within the budget.
use mathlib.Core.List.{Memᴰ}
use mathlib.Core.List.Memᴰ.{head, tail}
use veritas.Common.{
  ℕ, zero, suc, ◌+◌, ◌≤◌, Bool, true, false, ◌||◌, List, [], ◌∷◌, length, All, ◌==◌, ==_iff, leb,
  if◌then◌else◌, ◌≡◌, refl, sym, ◌∙◌, subst, inl, inr, Bool-cases, arith,
}
use veritas.Core.Status.{ok, ok-injective, >>=-eq-ok}
use veritas.Core.Ids.{StableId}
use veritas.Summarydb.Impact.{
  Sensitivity, sensitivity_value, ConsumerRef, ComponentDelta, SummaryDelta, FrontierItem, Map,
  emplace, has_key, component_key, Walk, explore, collect, follow, scan_users, UsersOf, walk,
  is_empty, descend, scope_of, seeds,
}
use veritas.Summarydb.Impact.Maps.{sensitivity_value-injective, emplace-All, length-emplace}

-- Which component of which summary a change affects, in how many uses and at which sensitivity: the
-- components that changed, and those that use an affected one at its sensitivity.
pub data Affects (users_of : UsersOf) (delta : SummaryDelta)
    : ℕ → Sensitivity → StableId → ℕ → Type 0 where
  changes :
      {c : ComponentDelta}
      → Memᴰ c delta.changed_components
      → Affects users_of delta 0 (scope_of c) delta.old_summary_id c.component_kind
  uses :
      {n : ℕ} {scope : Sensitivity} {id : StableId} {component : ℕ} {users : List ConsumerRef}
      {c : ConsumerRef}
      → Affects users_of delta n scope id component
      → users_of id component ≡ ok users
      → Memᴰ c users
      → c.sensitivity ≡ scope
      → Affects users_of delta (suc n) scope c.consumer_id c.consumer_component

pub if_stops : {A : Type 0} (b : Bool) (x y : A) → b ≡ true → (if b then x else y) ≡ x
if_stops b x y h = rw h refl

pub if_goes : {A : Type 0} (b : Bool) (x y : A) → b ≡ false → (if b then x else y) ≡ y
if_goes b x y h = rw h refl

module _ (users_of : UsersOf) (delta : SummaryDelta) (max : ℕ) where
  -- A consumer that is affected in so many uses at most.
  abbrev pub Consumes : ℕ → ConsumerRef → Type 0
  Consumes bound c =
      (n : ℕ) × (n ≤ bound)
      × Affects users_of delta n c.sensitivity c.consumer_id c.consumer_component

  abbrev pub Waits : ℕ → FrontierItem → Type 0
  Waits n item = Affects users_of delta n item.scope item.id item.component

  -- The state of the traversal on the level of that number, from 1 on.
  pub record IsValid (level : ℕ) (w : Walk) : Type 0 where
    pub collected_all : All (λ e. Consumes level e.1) w.collected
    pub next_all : All (λ e. Waits level e.1) w.next_frontier
    pub within : length w.collected ≤ max

  Consumes-later :
      (bound : ℕ) (m : Map ConsumerRef)
      → All (λ e. Consumes bound e.1) m
      → All (λ e. Consumes (suc bound) e.1) m
  Consumes-later bound [] a = tt
  Consumes-later bound (e ∷ m) ((n, h, affected), a) =
      ((n, omega arith, affected), Consumes-later bound m a)

  scan_users-IsValid :
      (level : ℕ) (item : FrontierItem) (cs : List ConsumerRef) (w : Walk)
      → ((c : ConsumerRef)
          → Memᴰ c cs
          → c.sensitivity ≡ item.scope
          → Affects users_of delta level c.sensitivity c.consumer_id c.consumer_component)
      → IsValid level w
      → IsValid level (scan_users max item cs w)
  unfolding scan_users
  scan_users-IsValid level item [] w h v = v
  scan_users-IsValid level item (c ∷ cs) w h v =
      let later = λ (d : ConsumerRef) (m : Memᴰ d cs). h d (tail m) in
      elim (Bool-cases (sensitivity_value c.sensitivity == sensitivity_value item.scope)) [
        | inr other ↦ rw other (
            scan_users-IsValid level item cs (explore w) later (record {
              collected_all = v.collected_all;
              next_all = v.next_all;
              within = v.within;
            }))
        | inl same ↦
            let scope =
              sensitivity_value-injective c.sensitivity item.scope ((==_iff _ _).0 same) in
            let affected = h c (head refl) scope in
            let followed : All (λ e. Waits level e.1) (follow item c w).next_frontier =
              emplace-All (Waits level) (component_key c.consumer_id c.consumer_component)
                (record {
                  id = c.consumer_id;
                  component = c.consumer_component;
                  scope = item.scope;
                })
                w.next_frontier
                (subst (λ s. Affects users_of delta level s c.consumer_id c.consumer_component)
                  scope affected)
                v.next_all in
            elim (Bool-cases
              (has_key (component_key c.consumer_id c.consumer_component) w.collected)) [
                | inl seen ↦
                    rw (same, seen)
                      (scan_users-IsValid level item cs (follow item c (explore w)) later (record {
                        collected_all = v.collected_all;
                        next_all = followed;
                        within = v.within;
                      }))
                | inr new ↦ elim (Bool-cases (leb max (length w.collected))) [
                  | inl full ↦
                      rw (same, new, full)
                        (record {
                          collected_all = v.collected_all;
                          next_all = v.next_all;
                          within = v.within;
                        })
                  | inr room ↦
                      rw (same, new, room)
                        (scan_users-IsValid level item cs (follow item c (collect c (explore w)))
                          later
                          (record {
                            collected_all =
                                emplace-All (Consumes level)
                                  (component_key c.consumer_id c.consumer_component) c w.collected
                                  (level, omega arith, affected) v.collected_all;
                            next_all = followed;
                            within = ground (
                              arith,
                              length-emplace (component_key c.consumer_id c.consumer_component) c
                                  w.collected,
                            );
                          }))
                ]
              ]
      ]

  walk-IsValid :
      (level : ℕ) (frontier : Map FrontierItem) (w r : Walk)
      → All (λ e. Waits level e.1) frontier
      → IsValid (suc level) w
      → walk users_of max frontier w ≡ ok r
      → IsValid (suc level) r
  unfolding walk
  walk-IsValid level [] w r a v e = subst (IsValid (suc level)) (ok-injective e) v
  walk-IsValid level ((key, item) ∷ rest) w r a v e = elim (Bool-cases w.truncated) [
    | inl stops ↦
        subst (IsValid (suc level)) (ok-injective (sym (if_stops w.truncated _ _ stops) ∙ e)) v
    | inr goes ↦
        let (users, found, next) =
          >>=-eq-ok (users_of item.id item.component)
            (λ users. walk users_of max rest (scan_users max item users w))
            (sym (if_goes w.truncated _ _ goes) ∙ e) in
        walk-IsValid level rest (scan_users max item users w) r a.1
          (scan_users-IsValid (suc level) item users w
            (λ c m s.
              uses (subst (λ s. Affects users_of delta level s item.id item.component) (sym s) a.0)
                found m refl)
            v)
          next
  ]

  -- What the traversal returns from a level on, with the number of levels that it goes down.
  abbrev pub Collects : ℕ → Walk → Type 0
  Collects bound r = All (λ e. Consumes bound e.1) r.collected × (length r.collected ≤ max)

  pub Collects-later :
      (bound more : ℕ) (r : Walk) → bound ≤ more → Collects bound r → Collects more r
  Collects-later bound more r h (a, within) = (relax r.collected a, within)
    where
      relax :
          (m : Map ConsumerRef) → All (λ e. Consumes bound e.1) m → All (λ e. Consumes more e.1) m
      relax [] a = tt
      relax (e ∷ m) ((n, below, affected), a) = ((n, omega arith, affected), relax m a)

  pub descend-Collects :
      (levels level : ℕ) (frontier : Map FrontierItem) (w r : Walk)
      → All (λ e. Waits level e.1) frontier
      → Collects level w
      → descend users_of max levels frontier w ≡ ok r
      → Collects (level + levels) r
  unfolding descend
  descend-Collects zero level frontier w r a v e =
      let v' = Collects-later level (level + 0) w (omega arith) v in
      elim (Bool-cases (is_empty frontier || w.truncated)) [
        | inl stops ↦ subst (Collects (level + 0)) (ok-injective (rw stops at e)) v'
        | inr deep ↦ subst (Collects (level + 0)) (ok-injective (rw deep at e)) v'
      ]
  descend-Collects (suc levels) level frontier w r a v e =
      elim (Bool-cases (is_empty frontier || w.truncated)) [
        | inl stops ↦
            subst (Collects (level + suc levels)) (ok-injective (rw stops at e))
              (Collects-later level (level + suc levels) w (omega arith) v)
        | inr goes ↦
            let start : IsValid (suc level) (record w { next_frontier = [] }) = record {
              collected_all = Consumes-later level w.collected v.0;
              next_all = tt;
              within = v.1;
            } in
            let (w', one, next) =
              >>=-eq-ok (walk users_of max frontier (record w { next_frontier = [] }))
                (λ w'. descend users_of max levels w'.next_frontier w') (rw goes at e) in
            let v' = walk-IsValid level frontier (record w { next_frontier = [] }) w' a start one in
            Collects-later (suc level + levels) (level + suc levels) r (omega arith) (
              descend-Collects levels (suc level) w'.next_frontier w' r v'.next_all
                (v'.collected_all, v'.within) next)
      ]

  pub seeds-Waits :
      (cs : List ComponentDelta) (frontier : Map FrontierItem)
      → ((c : ComponentDelta) → Memᴰ c cs → Memᴰ c delta.changed_components)
      → All (λ e. Waits 0 e.1) frontier
      → All (λ e. Waits 0 e.1) (seeds delta.old_summary_id cs frontier)
  unfolding seeds
  seeds-Waits [] frontier h a = a
  seeds-Waits (c ∷ cs) frontier h a =
      let first : FrontierItem = record {
        id = delta.old_summary_id;
        component = c.component_kind;
        scope = scope_of c;
      } in
      seeds-Waits cs (emplace (component_key delta.old_summary_id c.component_kind) first frontier)
        (λ d m. h d (tail m))
        (emplace-All (Waits 0) (component_key delta.old_summary_id c.component_kind) first frontier
          (changes (h c (head refl))) a)
