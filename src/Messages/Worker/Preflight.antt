-- ===== src/Messages/Worker/Preflight.antt =====
-- Which texts the check before sending accepts: internal/modem/gsm7.go.
use at_gateway.Prelude.{
  ℕ, ◌≤◌, String, ◌≡◌, refl, ◌↔◌, ◌⊎◌, inl, inr, false, Option, none, some, ◌==◌, string_eq,
  Bool-cases, arith,
}
use at_gateway.Messages.World.{Env}
use at_gateway.Messages.Worker.{validate_text, check_parts}

-- A part count that the protocol and the limit allow; a limit of zero is none.
abbrev Allowed : ℕ → ℕ → Type 0
Allowed n max_parts = (n ≤ 255) × ((max_parts ≡ 0) ⊎ (n ≤ max_parts))

check_parts-some_iff :
    (n max_parts : ℕ) → (check_parts (some n) max_parts ≡ none) ↔ Allowed n max_parts
unfolding check_parts
check_parts-some_iff n max_parts = ground arith

-- What a text must satisfy.
abbrev pub IsSendable : Env → String → ℕ → Type 0
IsSendable env text max_parts =
    ((text == "") ≡ false) × (n : ℕ) × (env.segments text ≡ some n) × Allowed n max_parts

check_parts_iff :
    (o : Option ℕ) (max_parts : ℕ)
    → (check_parts o max_parts ≡ none) ↔ ((n : ℕ) × (o ≡ some n) × Allowed n max_parts)
unfolding check_parts
check_parts_iff none max_parts =
    ((λ e. absurd (ground arith)), (λ (n, e, a). absurd (ground arith)))
check_parts_iff (some k) max_parts = (
  (λ e. (k, refl, (check_parts-some_iff k max_parts).0 e)),
  (λ (n, e, a).
      (check_parts-some_iff k max_parts).1 (let same : k ≡ n = ground (arith, e) in rw same a)),
)

-- The check accepts a text exactly when it is not empty, the encoder splits it, and the parts are at
-- most 255 and at most the limit, if there is one.
pub validate_text_iff :
    (env : Env) (text : String) (max_parts : ℕ)
    → (validate_text env text max_parts ≡ none) ↔ IsSendable env text max_parts
unfolding validate_text
validate_text_iff env text max_parts = elim (Bool-cases (text == "")) [
  | inl empty ↦ rw empty ((λ e. absurd (ground arith)), (λ h. absurd (ground (arith, h.0))))
  | inr some_text ↦ rw some_text (
    (λ e. let (n, f, a) = (check_parts_iff (env.segments text) max_parts).0 e in (refl, n, f, a)),
    (λ (x, n, f, a). (check_parts_iff (env.segments text) max_parts).1 (n, f, a)),
  )
]
