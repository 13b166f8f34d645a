-- ===== src/Proto/Examples.antt =====
-- Fields and references of small specifications.
use windrpc.Base.{true, false, ◌+◌, ◌*◌, ◌≡◌, refl, none, some, [], ◌∷◌, map, arith}
use windrpc.Base.Text.{codes, str_eq, str_mem}
use windrpc.Base.Result.{ok}
use windrpc.Spec.{Field, Message, Spec, int, pos}
use windrpc.Server.RpcTypes.{Part, command_part, message_c_type, is_empty}
use windrpc.Server.Sizing.{message_size}
use windrpc.Validator.Types.{service_types, message_names, enum_names, given_names, option_eq}
use windrpc.Proto.Options.Sizes.{limited, open_size, message_size-with_defaults}
use windrpc.Proto.Resolve.{resolve_type_name, declared_types}
use windrpc.Proto.Resolve.Shadow.{qualified, resolve_type_name-command_part}

abbrev samples : Field
samples = record {
  name = some (codes "samples");
  number = some 1;
  type_name = some (codes "uint32");
  property = some (codes "repeated");
  nanopb = record { max_size = none; max_length = none; max_count = none };
}

message_size-with_defaults_example :
    message_size (map limited (samples ∷ []))
    ≡ message_size (samples ∷ []) + 15 * open_size (samples ∷ [])
message_size-with_defaults_example = message_size-with_defaults (samples ∷ [])

abbrev state : Message
state = record { name = some (codes "State"); fields = []; oneofs = [] }

-- two services with a type `State` each
abbrev led_spec : Spec
led_spec = record {
  package_name = none;
  messages = [];
  enums = [];
  services =
      record {
        id = some (int (pos 7));
        name = some (codes "fan");
        messages = state ∷ [];
        enums = [];
        rpcs = [];
      }
      ∷ record {
        id = some (int (pos 8));
        name = some (codes "led");
        messages = state ∷ [];
        enums = [];
        rpcs = [];
      }
      ∷ [];
}

led_declared : declared_types led_spec (codes "led") ≡ ok (codes "State" ∷ [])
unfolding declared_types service_types message_names enum_names given_names option_eq str_eq
led_declared = refl

fan_state_given : is_empty (qualified (codes "fan") (codes "State")) ≡ false
unfolding is_empty str_mem str_eq
fan_state_given = refl

state_declared : str_mem (codes "State") (codes "State" ∷ []) ≡ true
unfolding str_mem str_eq
state_declared = refl

resolve_type_name-command_part_example :
    (resolve_type_name led_spec
        (codes "demo")
        (qualified (codes "fan") (codes "State"))
        (some (codes "led"))
      ≡ ok (codes "State"))
    × ((p : Part) × (command_part (codes "led") (qualified (codes "fan") (codes "State")) ≡ ok p)
        × (p.c_type ≡ message_c_type (codes "fan") (codes "State"))
        × (p.raw_pkg ≡ some (codes "fan")))
resolve_type_name-command_part_example =
    resolve_type_name-command_part led_spec (codes "demo") (codes "led") (codes "fan")
      (codes "State") (codes "State" ∷ []) (omega arith, (omega arith, (omega arith, tt)))
      (omega arith, (omega arith, (omega arith, (omega arith, (omega arith, tt))))) fan_state_given
      led_declared state_declared
