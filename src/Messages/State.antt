-- ===== src/Messages/State.antt =====
-- Processing states and state histories: internal/messages/models.go and internal/messages/domain.go.
pub mod Times
use at_gateway.Prelude.{
  ℕ, String, ◌≡◌, refl, ◌↔◌, Bool, true, false, not, Option, none, some, List, [], ◌∷◌, ◌++◌, arith,
  HasTest, ◌==◌, string_eq, ==_iff, if◌then◌else◌, last_of, any_where, map,
}

-- The constants of `smsgateway.ProcessingState` that the code names; `other` is any other text.
pub data ProcessingState : Type 0 where
  pending processed cancelling cancelled sent delivered failed : ProcessingState
  other : String → ProcessingState

abbrev state_beq : ProcessingState → ProcessingState → Bool
state_beq pending pending = true
state_beq processed processed = true
state_beq cancelling cancelling = true
state_beq cancelled cancelled = true
state_beq sent sent = true
state_beq delivered delivered = true
state_beq failed failed = true
state_beq (other s) (other t) = s == t
state_beq _ _ = false

pub state_beq_iff : (a b : ProcessingState) → (state_beq a b ≡ true) ↔ (a ≡ b)
state_beq_iff (other s) (other t) = ground (arith, ==_iff s t)
state_beq_iff pending b = ground arith
state_beq_iff a b = ground arith

instance abbrev pub state_eq : HasTest ProcessingState
state_eq = record { test = state_beq; test_iff = state_beq_iff }

-- One entry of a history: `stateModel` (and `StateChange`), with its time in microseconds.
pub record StateEntry : Type 0 where
  pub state : ProcessingState
  pub at : ℕ

-- `statesModel.Latest`.
unfoldable pub latest : List StateEntry → Option StateEntry
latest states = last_of states

-- The SQL expression `json_extract(states, '$[#-1].state')`: NULL for an empty history.
abbrev pub last_state : List StateEntry → Option ProcessingState
last_state states = elim (last_of states) [ none ↦ none | some e ↦ some e.state ]

-- SQL tests on that expression; a comparison with NULL does not hold.
abbrev pub last_is : List StateEntry → ProcessingState → Bool
last_is states s = elim (last_state states) [ none ↦ false | some t ↦ t == s ]

abbrev pub last_is_not : List StateEntry → ProcessingState → Bool
last_is_not states s = elim (last_state states) [ none ↦ false | some t ↦ not (t == s) ]

-- `json_insert(states, '$[#]', json(?))`.
abbrev pub append_state : ProcessingState → ℕ → List StateEntry → List StateEntry
append_state s now states = states ++ record { state = s; at = now } ∷ []

abbrev maps_state : ProcessingState → List (ProcessingState × ℕ) → Bool
maps_state s m = any_where (λ kv. kv.0 == s) m

-- The loop of `statesModel.toDomainMap`: `m` is the map built so far.
unfoldable pub to_domain_map_from :
    List (ProcessingState × ℕ) → List StateEntry → List (ProcessingState × ℕ)
to_domain_map_from m [] = m
to_domain_map_from m (e ∷ es) =
    to_domain_map_from (if maps_state e.state m then m else m ++ (e.state, e.at) ∷ []) es

-- `statesModel.toDomainMap`.
unfoldable pub to_domain_map : List StateEntry → List (ProcessingState × ℕ)
unfolding to_domain_map_from
to_domain_map states = to_domain_map_from [] states

-- The map's entry for a state.
abbrev pub state_time : ProcessingState → List (ProcessingState × ℕ) → Option ℕ
state_time s [] = none
state_time s ((t, n) ∷ m) = if t == s then some n else state_time s m

-- The time of the first entry of a history in a state.
abbrev pub first_time : ProcessingState → List StateEntry → Option ℕ
first_time s [] = none
first_time s (e ∷ es) = if e.state == s then some e.at else first_time s es
