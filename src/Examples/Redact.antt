-- ===== src/Examples/Redact.antt =====
-- A token that is redacted.
use lacs.Prelude.{String, ◌≡◌, refl, some, List, [], ◌∷◌}
use lacs.Json.{string, object, Fields, field, end, get}
use lacs.Dispatcher.Redaction.{
  SameBut, both_end, same_field, secret_field, ShownBut, redact_params, redact_params-SameBut,
}

abbrev fields : String → Fields
fields token = field "note" (string "n") (field "token" (string token) end)

differ : SameBut ("token" ∷ []) (fields "abc") (fields "xyz")
differ =
    same_field "note" (string "n") _ _
      (secret_field "token" (string "abc") (string "xyz") end end refl both_end)

redact_params-SameBut_example :
    (redact_params "ProAttach" (object (fields "abc"))
      ≡ redact_params "ProAttach" (object (fields "xyz")))
    × ShownBut ("token" ∷ []) (fields "abc") (redact_params "ProAttach" (object (fields "abc")))
redact_params-SameBut_example = redact_params-SameBut (fields "abc") (fields "xyz") differ

token_given : get (object (fields "attach")) "token" ≡ some (string "attach")
unfolding get
token_given = refl

abbrev attach : List String
attach = "pro" ∷ "attach" ∷ []
