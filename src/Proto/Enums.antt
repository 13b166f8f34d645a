-- ===== src/Proto/Enums.antt =====
-- `generate_enums_from_spec`: the names and values of the members.
use windrpc.Base.{zero, suc, ◌+◌, Option, none, some, List, [], ◌∷◌}
use windrpc.Base.Text.{Str}
use windrpc.Base.Result.{Result, ok, ◌>>=◌}
use windrpc.Spec.{ℤ, pos, negsuc, Member, EnumDef}
use windrpc.Spec.Required.{required}
use windrpc.Converter.{to_pascal_case, enum_value_prefix, apply_enum_prefix}

-- `value + 1`
unfoldable pub successor : ℤ → ℤ
successor (pos n) = pos (n + 1)
successor (negsuc zero) = pos 0
successor (negsuc (suc n)) = negsuc n

-- `item.get('value', current_value)`
unfoldable pub value_or : ℤ → Option ℤ → ℤ
value_or current none = current
value_or current (some v) = v

-- the loop over the members, from the value that the next one gets if it has none of its own
unfoldable pub enum_items : Str → ℤ → List Member → Result (List (Str × ℤ))
unfolding value_or successor
enum_items prefix current [] = ok []
enum_items prefix current (m ∷ members) = required m.name >>= λ name.
    enum_items prefix (successor (value_or current m.value)) members >>= λ items.
    ok ((apply_enum_prefix name prefix, value_or current m.value) ∷ items)

-- an enum of a .proto file: its name and its members
pub record ProtoEnum : Type 0 where
  pub name : Str
  pub items : List (Str × ℤ)

unfoldable pub proto_enum : EnumDef → Result ProtoEnum
unfolding enum_items
proto_enum e = required e.name >>= λ name.
    enum_items (enum_value_prefix name e.prefix) (pos 0) e.members >>= λ items.
    ok (record { name = to_pascal_case name; items = items })

unfoldable pub generate_enums_from_spec : List EnumDef → Result (List ProtoEnum)
unfolding proto_enum
generate_enums_from_spec [] = ok []
generate_enums_from_spec (e ∷ enums) =
    proto_enum e >>= λ first. generate_enums_from_spec enums >>= λ more. ok (first ∷ more)
