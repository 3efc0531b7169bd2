-- ===== src/Domain/Errors.antt =====
-- internal/domain/errors.go: the sentinel errors and the field-level validation error. `other` is
-- any error that wraps none of them: what a driver, a codec or the network reports.
use notification_system.Prelude.{String, List}

pub data Error : Type 0 where
  not_found conflict cancel_not_allowed : Error
  validation : String → String → Error
  template_variables_missing : List String → Error
  other : String → Error

-- What a fallible function returns: an error, or else a value.
pub data Result {i} (V : Type i) : Type i where
  err : Error → Result V
  ok : V → Result V

infixl 5 ◌>>=◌ ◌>>◌
abbrev pub ◌>>=◌ {i j} : {V : Type i} {W : Type j} → Result V → (V → Result W) → Result W
err problem >>= next = err problem
ok v >>= next = next v

-- A check, and what follows if it passes.
abbrev pub ◌>>◌ {j} : {W : Type j} → Result (Unit {0}) → Result W → Result W
err problem >> rest = err problem
ok v >> rest = rest
