-- ===== src/Template/Defs.antt =====
-- `Render` and `MissingVariables`, and the load of a template from the store.
use Prim.Native.String.{compare}
use Prim.Native.Nat.{Ordering}
use notification_system.Prelude.{
  String, Bool, true, false, none, some, List, [], ◌∷◌, ◌==◌, find, same_text, lookup, is_blank,
  if◌then◌else◌,
}
use notification_system.Domain.Enums.{Channel}
use notification_system.Domain.Errors.{validation, template_variables_missing, not_found}
use notification_system.Domain.Models.{Uuid, Template}
use notification_system.Store.Session.{Action, pure, raise, or_fail, ◌>>=◌, ◌>>◌, query}
use notification_system.Template.Placeholder.{render_content}

-- `Store.GetTemplateByID`, which reads the replica.
unfoldable pub get_template_by_id : Uuid → Action Template
get_template_by_id id = do
  or_fail (← query "get template" (λ s. find (λ t. t.id == id) s.replica.templates)) not_found

-- A variable that is absent or blank.
abbrev pub is_missing : List (String × String) → String → Bool
is_missing variables key = elim (lookup key variables) [ none ↦ true | some v ↦ is_blank v ]

abbrev pub missing_of : List (String × String) → List String → List String
missing_of variables [] = []
missing_of variables (k ∷ ks) =
    let rest = missing_of variables ks in if is_missing variables k then k ∷ rest else rest

-- The order of `sort.Strings`, by bytes.
abbrev pub not_after : String → String → Bool
not_after a b = elim (compare a b) [ Ordering.gt ↦ false | _ ↦ true ]

unfoldable pub insert_text : String → List String → List String
insert_text a [] = a ∷ []
insert_text a (b ∷ bs) = if not_after a b then a ∷ b ∷ bs else b ∷ insert_text a bs

unfoldable pub sort_texts : List String → List String
unfolding insert_text
sort_texts [] = []
sort_texts (a ∷ rest) = insert_text a (sort_texts rest)

-- `MissingVariables`
unfoldable pub missing_variables : List String → List (String × String) → List String
unfolding sort_texts
missing_variables required variables = sort_texts (missing_of variables required)

abbrev pub refuse_missing : List String → Action (Unit {0})
refuse_missing [] = pure tt
refuse_missing (k ∷ ks) = raise (template_variables_missing (k ∷ ks))

-- `Service.Render`; the message about the channels is without the two that the source quotes in it.
unfoldable pub render : Uuid → Channel → List (String × String) → Action (Template × String)
render id channel variables = do
  tmpl ← get_template_by_id id
  if same_text tmpl.channel channel
      then pure tt
      else raise (validation "channel" "template channel does not match notification channel")
  refuse_missing (missing_variables tmpl.required_variables variables)
  pure (tmpl, render_content tmpl.content variables)
