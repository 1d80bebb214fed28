-- ===== src/Messages/State/Times.antt =====
-- The map of `statesModel.toDomainMap` against the history that it is made from.
use at_gateway.Prelude.{
  ℕ, ◌≡◌, refl, ◌∙◌, true, false, Option, none, some, List, [], ◌∷◌, ◌++◌, arith, ◌==◌, ==_iff,
  Bool-cases, inl, inr,
}
use at_gateway.Messages.State.{
  ProcessingState, state_eq, StateEntry, maps_state, to_domain_map_from, to_domain_map, state_time,
  first_time,
}

abbrev or_else : Option ℕ → Option ℕ → Option ℕ
or_else none b = b
or_else (some n) b = some n

state_time-append :
    (s : ProcessingState) (m k : List (ProcessingState × ℕ))
    → state_time s (m ++ k) ≡ or_else (state_time s m) (state_time s k)
state_time-append s [] k = refl
state_time-append s ((t, n) ∷ m) k = ground (arith, state_time-append s m k)

-- A state that the map has is found in it.
maps_state-found :
    (s : ProcessingState) (m : List (ProcessingState × ℕ))
    → maps_state s m ≡ true
    → (n : ℕ) × (state_time s m ≡ some n)
maps_state-found s [] h = elim (Bool-cases false) [ inl e ↦ cc | inr e ↦ cc ]
maps_state-found s ((t, n) ∷ m) h = elim (Bool-cases (t == s)) [
  | inl hit ↦ (n, rw hit)
  | inr miss ↦ let (k, e) = maps_state-found s m (rw miss at h) in (k, rw miss e)
]

to_domain_map_from-first :
    (s : ProcessingState) (m : List (ProcessingState × ℕ)) (es : List StateEntry)
    → state_time s (to_domain_map_from m es) ≡ or_else (state_time s m) (first_time s es)
unfolding to_domain_map_from
to_domain_map_from-first s m [] = ground arith
to_domain_map_from-first s m (e ∷ es) = elim (Bool-cases (maps_state e.state m)) [
  | inl seen ↦ rw seen (to_domain_map_from-first s m es ∙ already seen)
  | inr new ↦ rw new (
      to_domain_map_from-first s (m ++ (e.state, e.at) ∷ []) es
      ∙ ground (arith, state_time-append s m ((e.state, e.at) ∷ [])))
]
  where
    already :
        maps_state e.state m ≡ true
        → or_else (state_time s m) (first_time s es)
          ≡ or_else (state_time s m) (first_time s (e ∷ es))
    already seen = elim (Bool-cases (e.state == s)) [
      | inl same ↦
          let (n, f) = maps_state-found s m (rw ((==_iff e.state s).0 same) at seen) in
          rw (f, or_else)
      | inr other_state ↦ rw other_state
    ]

-- The time that the domain map holds for a state is that of the first entry of the history in that
-- state, and a state that the history lacks is missing from the map.
pub to_domain_map-first :
    (s : ProcessingState) (states : List StateEntry)
    → state_time s (to_domain_map states) ≡ first_time s states
unfolding to_domain_map
to_domain_map-first s states = to_domain_map_from-first s [] states
