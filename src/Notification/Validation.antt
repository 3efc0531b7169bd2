-- ===== src/Notification/Validation.antt =====
-- What the validation of notification/input.go lets through.
use Prim.Native.String.{len}
use text.Mathlib.TextEquality.{eq_iff}
use notification_system.Prelude.{
  ◌≢◌, inl, inr, subst, sym, same_text, ◌||◌, ◌≤◌, ◌≡◌, refl, ◌⊎◌, ◌↔◌, true, false, Option, none,
  some, List, arith, is_some, is_blank, String,
}
use notification_system.Domain.Enums.{Channel, Priority, channel_valid, priority_valid}
use notification_system.Domain.Errors.{ok}
use notification_system.Notification.Input.{
  CreateInput, BatchInput, key_too_long, max_content_length, validate,
}

-- The channels with the longest content that each takes, in bytes.
abbrev pub FitsChannel : Channel → String → Type 0
FitsChannel c content =
    ((c ≡ "sms") × (len content ≤ 1600))
    ⊎ (((c ≡ "email") × (len content ≤ 100000)) ⊎ ((c ≡ "push") × (len content ≤ 4000)))

abbrev pub KnownChannel : Channel → Type 0
KnownChannel c = (c ≡ "sms") ⊎ ((c ≡ "email") ⊎ (c ≡ "push"))

abbrev pub KnownPriority : Priority → Type 0
KnownPriority p = (p ≡ "high") ⊎ ((p ≡ "normal") ⊎ (p ≡ "low"))

abbrev pub ShortKey : Option String → Type 0
ShortKey none = Unit {0}
ShortKey (some key) = len key ≤ 255

-- An input that the service takes. One with a template may have content too, of any length.
abbrev pub Acceptable : CreateInput → Type 0
Acceptable i =
    (is_blank i.recipient ≡ false)
    × KnownChannel i.channel
    × KnownPriority i.priority
    × ((is_some i.template_id ≡ true)
        ⊎ ((is_blank i.content ≡ false) × FitsChannel i.channel i.content))
    × ShortKey i.idempotency_key

one_of_three :
    (t a b c : String)
    → ((same_text t a || same_text t b || same_text t c) ≡ true) ↔ ((t ≡ a) ⊎ ((t ≡ b) ⊎ (t ≡ c)))
one_of_three t a b c = ground (arith, eq_iff t a, eq_iff t b, eq_iff t c)

apart : (a b : String) → same_text a b ≡ false → a ≢ b
apart a b f e = ground (arith, f, (eq_iff a b).1 e)

channel_valid-Known : (c : Channel) → (channel_valid c ≡ true) ↔ KnownChannel c
unfolding channel_valid
channel_valid-Known c = one_of_three c "sms" "email" "push"

priority_valid-Known : (p : Priority) → (priority_valid p ≡ true) ↔ KnownPriority p
unfolding priority_valid
priority_valid-Known p = one_of_three p "high" "normal" "low"

content_limit-Fits :
    (c : Channel) (content : String)
    → KnownChannel c
    → (len content ≤ max_content_length c) ↔ FitsChannel c content
unfolding max_content_length
content_limit-Fits c content (inl e) =
    subst (λ x. (len content ≤ max_content_length x) ↔ FitsChannel x content) (sym e)
      (
        λ le. inl (refl, le),
        λ h. elim h [
          | inl k ↦ k.1
          | inr (inl k) ↦ absurd (apart "sms" "email" refl k.0)
          | inr (inr k) ↦ absurd (apart "sms" "push" refl k.0)
        ],
      )
content_limit-Fits c content (inr (inl e)) =
    subst (λ x. (len content ≤ max_content_length x) ↔ FitsChannel x content) (sym e)
      (
        λ le. inr (inl (refl, le)),
        λ h. elim h [
          | inl k ↦ absurd (apart "email" "sms" refl k.0)
          | inr (inl k) ↦ k.1
          | inr (inr k) ↦ absurd (apart "email" "push" refl k.0)
        ],
      )
content_limit-Fits c content (inr (inr e)) =
    subst (λ x. (len content ≤ max_content_length x) ↔ FitsChannel x content) (sym e)
      (
        λ le. inr (inr (refl, le)),
        λ h. elim h [
          | inl k ↦ absurd (apart "push" "sms" refl k.0)
          | inr (inl k) ↦ absurd (apart "push" "email" refl k.0)
          | inr (inr k) ↦ k.1
        ],
      )

key-Short : (key : Option String) → (key_too_long key ≡ false) ↔ ShortKey key
key-Short none = (λ e. tt, λ h. refl)
key-Short (some key) = ground arith

-- What `validate` tests, as it tests it.
abbrev Passes : CreateInput → Type 0
Passes i =
    (is_blank i.recipient ≡ false)
    × (channel_valid i.channel ≡ true)
    × (priority_valid i.priority ≡ true)
    × ((is_some i.template_id ≡ true)
        ⊎ ((is_blank i.content ≡ false) × (len i.content ≤ max_content_length i.channel)))
    × (key_too_long i.idempotency_key ≡ false)

validate-Passes : (i : CreateInput) → (validate i ≡ ok tt) ↔ Passes i
unfolding validate
validate-Passes i = ground arith

-- Validation lets an input through exactly if its recipient is not blank, its channel is sms, email
-- or push, its priority is high, normal or low, it names a template or has content that is not blank
-- and has at most 1600, 100000 or 4000 bytes for these channels, and its idempotency key, if any,
-- has at most 255 bytes. One that names a template may have any content as well.
pub validate-Acceptable : (i : CreateInput) → (validate i ≡ ok tt) ↔ Acceptable i
validate-Acceptable i = ground (
  arith,
  validate-Passes i,
  channel_valid-Known i.channel,
  priority_valid-Known i.priority,
  content_limit-Fits i.channel i.content,
  key-Short i.idempotency_key,
)

abbrev batch_of : String → Option String → List CreateInput → BatchInput
batch_of user key is = record { user_id = user; idempotency_key = key; items = is }
