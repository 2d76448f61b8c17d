-- ===== src/Parser/Extensions.antt =====
-- parseRolloutExtension and parseIngressExtension of internal/parser/parser.go: the x-composectl
-- block of a service.
use Prim.Native.String.{◌++◌ as cat}
use text.Mathlib.Text.{◌==◌ as str_eq}
use navarch.Prelude.{ℤ, pos, ◌||◌, String, Option, none, some, if◌then◌else◌, pos_part, ltb_ℤ}
use navarch.Spec.{Ingress}
use navarch.Parser.Compose.{Value, str, int, int64, float64, mapping, Fields, get_field}

pub data RolloutMode : Type 0 where
  swap pin : RolloutMode

-- The mode, whether it was declared, and the error.
pub data Rollout : Type 0 where
  undeclared : Rollout
  declared : RolloutMode → Rollout
  malformed : String → Rollout

unfoldable pub rollout_text : (String → String) → String → Rollout
rollout_text quote s =
    if str_eq s "swap"
    then declared swap
    else if str_eq s "pin"
    then declared pin
    else malformed (
        cat "unknown rollout mode "
          (cat (quote s) (cat "; must be " (cat (quote "swap") (cat " or " (quote "pin"))))))

unfoldable pub rollout_value : (String → String) → Option Value → Rollout
unfolding rollout_text
rollout_value quote none = undeclared
rollout_value quote (some (str s)) = rollout_text quote s
rollout_value quote (some v) =
    malformed (cat "rollout must be a string: " (cat (quote "swap") (cat " or " (quote "pin"))))

unfoldable pub rollout_block : (String → String) → Option Value → Rollout
unfolding rollout_value get_field
rollout_block quote (some (mapping m)) = rollout_value quote (get_field "rollout" m)
rollout_block quote v = undeclared

-- parseRolloutExtension.
unfoldable pub parse_rollout_extension : (String → String) → Fields → Rollout
unfolding rollout_block get_field
parse_rollout_extension quote ext = rollout_block quote (get_field "x-composectl" ext)

-- The ingress, nil, or the error.
pub data IngressBlock : Type 0 where
  no_ingress : IngressBlock
  ingress : Ingress → IngressBlock
  bad_ingress : String → IngressBlock

-- toInt.
unfoldable pub to_int : Option Value → Option ℤ
to_int (some (int n)) = some n
to_int (some (int64 n)) = some n
to_int (some (float64 n)) = some n
to_int v = none

unfoldable pub ingress_path : Option Value → String
ingress_path (some (str p)) = p
ingress_path v = ""

-- !ok || port <= 0 || port > 65535
unfoldable pub ingress_port : Option ℤ → Option Value → IngressBlock
unfolding ingress_path
ingress_port none path = bad_ingress "ingress.port must be an integer between 1 and 65535"
ingress_port (some n) path =
    if ltb_ℤ n (pos 1) || ltb_ℤ (pos 65535) n
    then bad_ingress "ingress.port must be an integer between 1 and 65535"
    else ingress (record { port = pos_part n; path = ingress_path path })

unfoldable pub ingress_value : Option Value → IngressBlock
unfolding ingress_port to_int get_field
ingress_value none = no_ingress
ingress_value (some (mapping im)) =
    ingress_port (to_int (get_field "port" im)) (get_field "path" im)
ingress_value (some v) = bad_ingress "ingress must be a mapping"

unfoldable pub ingress_block : Option Value → IngressBlock
unfolding ingress_value get_field
ingress_block none = no_ingress
ingress_block (some (mapping m)) = ingress_value (get_field "ingress" m)
ingress_block (some v) = bad_ingress "x-composectl must be a mapping"

-- parseIngressExtension.
unfoldable pub parse_ingress_extension : Fields → IngressBlock
unfolding ingress_block get_field
parse_ingress_extension ext = ingress_block (get_field "x-composectl" ext)
