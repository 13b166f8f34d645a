-- ===== src/Server/Callbacks/Examples.antt =====
-- Merges into a file that exists.
use mathlib.Core.Option.{Option, some, none}
use windrpc.Base.{◌≡◌, refl, [], ◌++◌, false, All}
use windrpc.Base.Text.{Str, codes, str_eq, str_mem, upper}
use windrpc.Base.Pieces.{split_paragraphs}
use windrpc.Base.Result.{ok, ok_value}
use windrpc.Spec.Required.{required}
use windrpc.Validator.Examples.{two_services}
use windrpc.Server.RpcTypes.{get_rpc_types, command_part, or_empty, result_part, type_of}
use windrpc.Server.Merge.{Files, write_smart_merge}
use windrpc.Server.Merge.Again.{HasKey, write_smart_merge_lem, write_smart_merge_idem}
use windrpc.Server.Callbacks.{generate_callbacks_skeleton}
use windrpc.Server.Callbacks.Paragraphs.{plain}
use windrpc.Server.Callbacks.Merged.{PlainName, PlainRpc, PlainService, merge-callbacks}

-- a copy that works
copies : Str → Option Str → Option Str
copies s old = some s

abbrev mine : Str
mine = codes "int windrpc_on_start(void *c) { return 1; }"

abbrev files : Files
files = record { file = some mine; backup = none }

-- the handler that is there, and another
abbrev handlers : Str
handlers = codes "int windrpc_on_start(void *c) {\n}\n\nint windrpc_on_stop(void *c) {\n}\n"

write_smart_merge_lem_example :
    (behind : Str) × ((write_smart_merge copies handlers files).file ≡ some (mine ++ behind))
    × ((write_smart_merge copies handlers files).backup ≡ copies mine none)
    × All (HasKey (mine ++ behind)) (split_paragraphs false handlers)
write_smart_merge_lem_example = write_smart_merge_lem copies handlers mine files refl

write_smart_merge_idem_example :
    (write_smart_merge copies handlers (write_smart_merge copies handlers files)).file
    ≡ (write_smart_merge copies handlers files).file
write_smart_merge_idem_example = write_smart_merge_idem copies handlers files

abbrev demo : Str
demo = codes "demo"

abbrev skeleton : Str
skeleton = ok_value [] (generate_callbacks_skeleton two_services demo)

skeleton_generated : generate_callbacks_skeleton two_services demo ≡ ok skeleton
unfolding generate_callbacks_skeleton ok_value required str_eq get_rpc_types command_part str_mem
    or_empty result_part type_of upper
skeleton_generated = refl

two_services-PlainService : All PlainService two_services.services
unfolding PlainService PlainRpc PlainName plain or_empty
two_services-PlainService =
    ((refl, ((refl, refl, refl), ((refl, refl, refl), tt))), ((refl, ((refl, refl, refl), tt)), tt))

merge-callbacks_example : (write_smart_merge copies skeleton files).file ≡ some mine
merge-callbacks_example =
    merge-callbacks copies two_services demo skeleton mine files two_services-PlainService
      skeleton_generated refl
