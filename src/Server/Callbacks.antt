-- ===== src/Server/Callbacks.antt =====
-- `_generate_callbacks_skeleton`: the handlers that a user fills in, as text.
mod Examples
pub mod Handlers
pub mod Heading
pub mod Merged
pub mod Paragraphs
pub mod Plain
use mathlib.Core.Bool.{Bool, true, false}
use mathlib.Core.List.{flatten}
use windrpc.Base.{List, [], ◌∷◌, ◌++◌, map, if◌then◌else◌}
use windrpc.Base.Pieces.{newline}
use windrpc.Base.Result.{Result, ok, ◌>>=◌}
use windrpc.Base.Text.{Str, codes, str_eq}
use windrpc.Spec.{Rpc, Service, Spec}
use windrpc.Spec.Required.{required}
use windrpc.Server.RpcTypes.{is_void, RpcTypes, get_rpc_types}

-- lines that end in a newline each
unfoldable pub line_texts : List Str → Str
line_texts [] = []
line_texts (l ∷ ls) = l ++ (newline ∷ line_texts ls)

-- a block: lines, and an empty line behind them
unfoldable pub block_text : List Str → Str
unfolding line_texts
block_text ls = line_texts ls ++ newline ∷ []

-- `f"const {info['cmd_type']} *req" if info['cmd_type'] != 'void' else "const void *req"`
unfoldable pub cmd_arg : RpcTypes → Str
unfolding is_void
cmd_arg info =
    if is_void info.cmd_type
    then codes "const void *req"
    else codes "const " ++ info.cmd_type ++ codes " *req"

-- `f"{info['res_type']} *res" if info['res_type'] != 'void' else "void *res"`
unfoldable pub res_arg : RpcTypes → Str
unfolding is_void
res_arg info = if is_void info.res_type then codes "void *res" else info.res_type ++ codes " *res"

-- a line under a condition
unfoldable pub line_if : Bool → Str → List Str → List Str
line_if true l ls = l ∷ ls
line_if false l ls = ls

unfoldable pub subscription_handler : Str → List Str
subscription_handler rpc_name =
    codes "/**"
    ∷ (codes " * @brief Execute handler for subscribing to " ++ rpc_name)
    ∷ codes " */"
    ∷ (codes "int32_t windrpc_on_subscribe_"
        ++ rpc_name
        ++ codes "(const rpc_types_Subscribe_t *req, void *res, void *context) {")
    ∷ codes "    ARG_UNUSED(res);"
    ∷ (codes "    LOG_INF(\"Execute subscription: subscribe_"
        ++ rpc_name
        ++ codes ", enable=%d\", req ? req->enable : 0);")
    ∷ codes "    // [USER TODO]: Implement subscription enable/disable logic based on req->enable"
    ∷ (codes "    // Example: if (req->enable) windrpc_notify_" ++ rpc_name ++ codes "(...);")
    ∷ codes "    return 0;"
    ∷ codes "}"
    ∷ []

unfoldable pub one_way_handler : Str → RpcTypes → List Str
unfolding is_void cmd_arg line_if
one_way_handler rpc_name info =
    codes "/**"
    ∷ (codes " * @brief Execute handler for RPC " ++ rpc_name ++ codes " (no response)")
    ∷ codes " */"
    ∷ (codes "int32_t windrpc_on_"
        ++ rpc_name
        ++ codes "("
        ++ cmd_arg info
        ++ codes ", void *res, void *context) {")
    ∷ line_if (is_void info.cmd_type) (codes "    ARG_UNUSED(req);") (
        codes "    ARG_UNUSED(res);"
        ∷ (codes "    LOG_INF(\"Execute RPC: " ++ rpc_name ++ codes "\");")
        ∷ codes "    // [USER TODO]: Implement execution logic here"
        ∷ codes "    return 0;"
        ∷ codes "}"
        ∷ [])

unfoldable pub answering_handler : Str → RpcTypes → List Str
unfolding is_void cmd_arg res_arg line_if
answering_handler rpc_name info =
    codes "/**"
    ∷ (codes " * @brief Execute handler for RPC " ++ rpc_name)
    ∷ codes " */"
    ∷ (codes "int32_t windrpc_on_"
        ++ rpc_name
        ++ codes "("
        ++ cmd_arg info
        ++ codes ", "
        ++ res_arg info
        ++ codes ", void *context) {")
    ∷ line_if (is_void info.cmd_type) (codes "    ARG_UNUSED(req);") (
        line_if (is_void info.res_type) (codes "    ARG_UNUSED(res);") (
          (codes "    LOG_INF(\"Execute RPC: " ++ rpc_name ++ codes "\");")
          ∷ codes
              "    // [USER TODO]: Implement execution logic and populate response result (*res) here"
          ∷ codes "    return 0;"
          ∷ codes "}"
          ∷ []))

unfoldable pub handler_lines : Str → RpcTypes → List Str
unfolding subscription_handler one_way_handler answering_handler
handler_lines rpc_name info =
    if str_eq info.rpc_type (codes "NOTIFICATION")
    then subscription_handler rpc_name
    else if str_eq info.rpc_type (codes "REQUEST_ONLY")
    then one_way_handler rpc_name info
    else answering_handler rpc_name info

-- the loop over the RPCs of a service
unfoldable pub handler_blocks : Str → Str → List Rpc → Result (List (List Str))
unfolding handler_lines get_rpc_types
handler_blocks svc_name package_name [] = ok []
handler_blocks svc_name package_name (r ∷ rs) = get_rpc_types r svc_name package_name >>= λ info.
    required r.name >>= λ rpc_name.
    handler_blocks svc_name package_name rs >>= λ rest. ok (handler_lines rpc_name info ∷ rest)

unfoldable pub ruler : Str
ruler = codes "/* ========================================================================== */"

unfoldable pub service_heading : Str → List Str
unfolding ruler
service_heading svc_name =
    ruler
    ∷ (codes "/*                             Service: "
        ++ svc_name
        ++ codes "                           */")
    ∷ ruler
    ∷ []

unfoldable pub service_blocks : Str → Service → Result (List (List Str))
unfolding handler_blocks service_heading
service_blocks package_name s = required s.name >>= λ svc_name.
    if str_eq svc_name (codes "common")
    then ok []
    else (handler_blocks svc_name package_name s.rpcs >>= λ handlers.
        ok (service_heading svc_name ∷ handlers))

unfoldable pub services_blocks : Str → List Service → Result (List (List Str))
unfolding service_blocks
services_blocks package_name [] = ok []
services_blocks package_name (s ∷ ss) = service_blocks package_name s >>= λ blocks.
    services_blocks package_name ss >>= λ rest. ok (blocks ++ rest)

unfoldable pub file_comment : List Str
file_comment =
    codes "/**"
    ∷ codes " * @file windrpc_callbacks.c"
    ∷ codes " * @brief Auto-generated Callbacks Skeleton for WindRPC server."
    ∷ codes " * @note Copy this file as windrpc_callbacks.c and implement your logic."
    ∷ codes " */"
    ∷ []

unfoldable pub includes : List Str
includes =
    codes "#include \"windrpc.h\""
    ∷ codes "#ifdef __ZEPHYR__"
    ∷ codes "#include <zephyr/logging/log.h>"
    ∷ codes "#endif"
    ∷ codes "#include <stdio.h>"
    ∷ []

unfoldable pub log_module : List Str
log_module = codes "LOG_MODULE_REGISTER(windrpc_callbacks, LOG_LEVEL_INF);" ∷ []

unfoldable pub generate_callbacks_skeleton : Spec → Str → Result Str
unfolding services_blocks block_text file_comment includes log_module
generate_callbacks_skeleton spec_data package_name =
    services_blocks package_name spec_data.services >>= λ blocks.
    ok (flatten (map block_text (file_comment ∷ includes ∷ log_module ∷ blocks)))
