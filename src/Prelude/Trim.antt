-- ===== src/Prelude/Trim.antt =====
-- `strings.TrimSpace` on a text that it has trimmed.
use Prim.Native.Char.{Char, code}
use Prim.Native.String.{String}
use mathlib.Core.Path.{◌≡◌, refl, sym, ap, ◌∙◌}
use mathlib.Core.Logic.{◌⊎◌, inl, inr}
use mathlib.Core.Bool.{true, false}
use text.Mathlib.TextEquality.{eq_iff}
use text.Mathlib.TextLemmas.{cons≢nil}
use native.Mathlib.Omega.{arith}
use notification_system.Prelude.Tests.{Bool-cases, same_text, if◌then◌else◌}
use notification_system.Prelude.Text.{
  is_empty, is_space, trim_left, trim_right, trim_space, is_blank,
}

trim_left-cases :
    (s : String)
    → (trim_left s ≡ String.[])
      ⊎ ((c : Char) × (r : String) × (trim_left s ≡ String.◌∷◌ c r) × (is_space (code c) ≡ false))
unfolding trim_left
trim_left-cases String.[] = inl refl
trim_left-cases (String.◌∷◌ c s) =
    elim (is_space (code c))
        as (λ b.
          (is_space (code c) ≡ b)
          → ((if b then trim_left s else String.◌∷◌ c s) ≡ String.[])
            ⊎ ((d : Char) × (r : String) × ((if b then trim_left s else String.◌∷◌ c s)
                  ≡ String.◌∷◌ d r)
                × (is_space (code d) ≡ false))) [
                  | true ↦ λ _. trim_left-cases s
                  | false ↦ λ e. inr (c, s, refl, e)
                ]
      refl

trim_right-trim_right : (s : String) → trim_right (trim_right s) ≡ trim_right s
unfolding trim_right
trim_right-trim_right String.[] = refl
trim_right-trim_right (String.◌∷◌ c s) = ground (arith, trim_right-trim_right s)

trimmed_head :
    (c : Char) (r : String)
    → is_space (code c) ≡ false
    → trim_space (trim_right (String.◌∷◌ c r)) ≡ trim_right (String.◌∷◌ c r)
unfolding trim_space trim_left trim_right
trimmed_head c r e = ground (arith, e, trim_right-trim_right r)

pub trim_space-trim_space : (s : String) → trim_space (trim_space s) ≡ trim_space s
unfolding trim_space trim_left trim_right
trim_space-trim_space s = elim (trim_left-cases s) [
  | inl e ↦ ap (λ t. trim_space (trim_right t)) e ∙ sym (ap trim_right e)
  | inr (c, r, e, n) ↦
      ap (λ t. trim_space (trim_right t)) e ∙ trimmed_head c r n ∙ sym (ap trim_right e)
]

pub is_blank-trim_space : (s : String) → is_blank (trim_space s) ≡ is_blank s
unfolding is_blank
is_blank-trim_space s = rw (trim_space-trim_space s)

same_text-empty : (s : String) → same_text s "" ≡ is_empty s
same_text-empty String.[] = refl
same_text-empty (String.◌∷◌ c s) = elim (Bool-cases (same_text (String.◌∷◌ c s) "")) [
  | inl e ↦ absurd (cons≢nil ((eq_iff (String.◌∷◌ c s) "").0 e))
  | inr e ↦ e
]

pub is_blank-same_text : (s : String) → is_blank s ≡ same_text (trim_space s) ""
unfolding is_blank
is_blank-same_text s = sym (same_text-empty (trim_space s))
