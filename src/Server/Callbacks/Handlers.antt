-- ===== src/Server/Callbacks/Handlers.antt =====
-- The blocks of the callbacks' skeleton: lines without a newline, and no key among them.
use mathlib.Core.Bool.{Bool, true, false}
use windrpc.Base.{ℕ, ◌≡◌, refl, none, List, [], ◌∷◌, ◌++◌, All, Bool-cases, inl, inr}
use windrpc.Base.Text.{Str, codes, str_eq, starts_with, join}
use windrpc.Base.Pieces.{is_space, strip, rstrip, unless_blank, newline}
use windrpc.Server.RpcTypes.{is_void, RpcTypes}
use windrpc.Server.Merge.{key_token, is_header}
use windrpc.Server.Callbacks.{
  line_if, subscription_handler, one_way_handler, answering_handler, handler_lines, cmd_arg,
  res_arg,
}
use windrpc.Server.Callbacks.Plain.{PlainTypes, plain-around, cmd_arg-plain, res_arg-plain}
use windrpc.Server.Callbacks.Paragraphs.{plain, is_line, IsLine, plain-append, IsBlock, joined}

line_if-IsLine :
    (b : Bool) (l : Str) (ls : List Str) → IsLine l → All IsLine ls → All IsLine (line_if b l ls)
unfolding line_if
line_if-IsLine true l ls h hs = (h, hs)
line_if-IsLine false l ls h hs = hs

-- a line around a name, that begins with a character
around-IsLine :
    (c : ℕ) (a n b : Str)
    → plain (c ∷ a) ≡ true
    → plain n ≡ true
    → plain b ≡ true
    → IsLine (c ∷ a ++ n ++ b)
unfolding is_line
around-IsLine c a n b ha hn hb = plain-around (c ∷ a) n b ha hn hb

-- the proof for a line, and those for the lines behind it
infixr 4 ◌⊳◌
abbrev ◌⊳◌ {ℓ κ} : {A : Type ℓ} {B : Type κ} → A → B → A × B
h ⊳ hs = (h, hs)

subscription_handler-IsBlock :
    (name : Str) → plain name ≡ true → IsBlock (subscription_handler name)
unfolding subscription_handler is_line plain
subscription_handler-IsBlock name h =
    refl
    ⊳ plain-append (codes " * @brief Execute handler for subscribing to ") name refl h
    ⊳ refl
    ⊳ plain-around (codes "int32_t windrpc_on_subscribe_") name
        (codes "(const rpc_types_Subscribe_t *req, void *res, void *context) {") refl h refl
    ⊳ refl
    ⊳ plain-around (codes "    LOG_INF(\"Execute subscription: subscribe_") name
        (codes ", enable=%d\", req ? req->enable : 0);") refl h refl
    ⊳ refl
    ⊳ plain-around (codes "    // Example: if (req->enable) windrpc_notify_") name (codes "(...);")
        refl h refl
    ⊳ refl
    ⊳ refl
    ⊳ tt

one_way_handler-IsBlock :
    (name : Str) (info : RpcTypes)
    → plain name ≡ true
    → PlainTypes info
    → IsBlock (one_way_handler name info)
unfolding one_way_handler is_line plain
one_way_handler-IsBlock name info h types =
    refl
    ⊳ plain-around (codes " * @brief Execute handler for RPC ") name (codes " (no response)") refl h
        refl
    ⊳ refl
    ⊳ plain-around (codes "int32_t windrpc_on_" ++ name ++ codes "(") (cmd_arg info)
        (codes ", void *res, void *context) {")
        (plain-around (codes "int32_t windrpc_on_") name (codes "(") refl h refl)
        (cmd_arg-plain info types.0) refl
    ⊳ line_if-IsLine (is_void info.cmd_type) (codes "    ARG_UNUSED(req);") _ refl (
        refl
        ⊳ plain-around (codes "    LOG_INF(\"Execute RPC: ") name (codes "\");") refl h refl
        ⊳ refl
        ⊳ refl
        ⊳ refl
        ⊳ tt)

answering_handler-IsBlock :
    (name : Str) (info : RpcTypes)
    → plain name ≡ true
    → PlainTypes info
    → IsBlock (answering_handler name info)
unfolding answering_handler is_line plain
answering_handler-IsBlock name info h types =
    refl
    ⊳ plain-append (codes " * @brief Execute handler for RPC ") name refl h
    ⊳ refl
    ⊳ plain-around (codes "int32_t windrpc_on_" ++ name ++ codes "(" ++ cmd_arg info ++ codes ", ")
        (res_arg info) (codes ", void *context) {")
        (plain-around (codes "int32_t windrpc_on_" ++ name ++ codes "(") (cmd_arg info) (codes ", ")
          (plain-around (codes "int32_t windrpc_on_") name (codes "(") refl h refl)
          (cmd_arg-plain info types.0) refl)
        (res_arg-plain info types.1) refl
    ⊳ line_if-IsLine (is_void info.cmd_type) (codes "    ARG_UNUSED(req);") _ refl (
        line_if-IsLine (is_void info.res_type) (codes "    ARG_UNUSED(res);") _ refl (
          plain-around (codes "    LOG_INF(\"Execute RPC: ") name (codes "\");") refl h refl
          ⊳ refl
          ⊳ refl
          ⊳ refl
          ⊳ tt))

-- a text that begins with `/**` is a header, whatever is behind
is_header_comment : (s : Str) → is_header (strip (codes "/**" ++ s)) ≡ true
unfolding is_header strip str_eq is_space starts_with
is_header_comment s = begins (rstrip s)
  where
    begins :
        (t : Str) → is_header (unless_blank b'/' (unless_blank b'*' (unless_blank b'*' t))) ≡ true
    begins [] = refl
    begins (c ∷ t) = refl

-- a block that the merge skips
abbrev pub Skipped : List Str → Type 0
Skipped b = IsBlock b × (key_token (joined b) ≡ none)

pub key_token-comment : (l : Str) (ls : List Str) → key_token (joined (codes "/**" ∷ l ∷ ls)) ≡ none
unfolding key_token join
key_token-comment l ls = rw (is_header_comment (newline ∷ joined (l ∷ ls))) refl

pub handler_lines-Skipped :
    (name : Str) (info : RpcTypes)
    → plain name ≡ true
    → PlainTypes info
    → Skipped (handler_lines name info)
unfolding handler_lines
handler_lines-Skipped name info h types =
    elim (Bool-cases (str_eq info.rpc_type (codes "NOTIFICATION"))) [
      | inl event ↦ rw event (
        subscription_handler-IsBlock name h,
        unfold subscription_handler in key_token-comment _ _,
      )
      | inr request ↦ elim (Bool-cases (str_eq info.rpc_type (codes "REQUEST_ONLY"))) [
        | inl one_way ↦
            rw (request, one_way)
              (
                one_way_handler-IsBlock name info h types,
                unfold one_way_handler in key_token-comment _ _,
              )
        | inr answering ↦
            rw (request, answering)
              (
                answering_handler-IsBlock name info h types,
                unfold answering_handler in key_token-comment _ _,
              )
      ]
    ]
