-- ===== src/Parser/Preflight.antt =====
-- internal/parser/preflight.go: directives that are rejected from the raw document. The document is
-- none where yaml.Unmarshal fails.
use navarch.Prelude.{String, Bool, true, false, Option, none, some, List, [], ◌∷◌, ◌++◌}
use navarch.Parser.Compose.{Value, mapping, Fields, no_fields, field, get_field}
use navarch.Parser.Errors.{ValidationError, Check, check, collect, dotted}

-- _, ok := m[key]
abbrev pub has_field : String → Fields → Bool
has_field k m = elim (get_field k m) [ none ↦ false | some v ↦ true ]

unfoldable pub forbidden_fields : String → Fields → List Check
unfolding get_field
forbidden_fields name svc =
    check (has_field "extends" svc) (dotted name "extends")
      "extends is not supported; the control plane does not read additional files"
    ∷ check (has_field "env_file" svc) (dotted name "env_file")
        "env_file is not supported; set environment inline or use ${secret:KEY}"
    ∷ check (has_field "label_file" svc) (dotted name "label_file")
        "label_file is not supported; the control plane does not read additional files"
    ∷ check (has_field "profiles" svc) (dotted name "profiles")
        "profiles are not supported; every service in the file is deployed"
    ∷ []

-- rawSvc.(map[string]any): any other value is passed over.
unfoldable pub check_raw_service : String → Value → List ValidationError
unfolding collect forbidden_fields
check_raw_service name (mapping svc) = collect (forbidden_fields name svc)
check_raw_service name v = []

unfoldable pub check_raw_services : Fields → List ValidationError
unfolding check_raw_service
check_raw_services no_fields = []
check_raw_services (field name v m) = check_raw_service name v ++ check_raw_services m

-- services, _ := doc["services"].(map[string]any)
abbrev mapping_of : Option Value → Fields
mapping_of (some (mapping m)) = m
mapping_of v = no_fields

unfoldable pub preflight : Option Fields → List ValidationError
unfolding collect check_raw_services get_field
preflight none = []
preflight (some doc) =
    collect (
      check (has_field "include" doc) "include"
        "include is not supported; the control plane does not read additional files"
      ∷ [])
    ++ check_raw_services (mapping_of (get_field "services" doc))
