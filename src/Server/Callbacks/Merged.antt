-- ===== src/Server/Callbacks/Merged.antt =====
-- The merge of the generated callbacks into a file that exists.
use mathlib.Core.Bool.{true, false}
use windrpc.Base.{
  ◌≡◌, refl, ap, Option, none, some, List, [], ◌∷◌, ◌++◌, map, append-nil, All, All-append,
  Bool-cases, inl, inr,
}
use windrpc.Base.Result.{ok, Returns, Returns-bind}
use windrpc.Base.Text.{Str, codes, str_eq, join, starts_with}
use windrpc.Base.Pieces.{split_paragraphs, strip, lstrip, rstrip, unless_blank, is_space}
use windrpc.Spec.{Rpc, Service, Spec}
use windrpc.Spec.Required.{required}
use windrpc.Server.RpcTypes.{get_rpc_types, or_empty}
use windrpc.Server.Merge.{
  key_token, is_header, additions, add_block, appended, Files, write_smart_merge,
}
use windrpc.Server.Callbacks.{
  handler_blocks, service_blocks, services_blocks, file_comment, includes, log_module,
  generate_callbacks_skeleton,
}
use windrpc.Server.Callbacks.Plain.{PlainTypes, get_rpc_types-plain}
use windrpc.Server.Callbacks.Handlers.{Skipped, handler_lines-Skipped, key_token-comment}
use windrpc.Server.Callbacks.Heading.{service_heading-Skipped}
use windrpc.Server.Callbacks.Paragraphs.{plain, is_line, IsBlock, joined, split_blocks}

-- a name without a newline, where there is one
unfoldable pub PlainName : Option Str → Type 0
PlainName none = Unit
PlainName (some n) = plain n ≡ true

unfoldable pub PlainRpc : Rpc → Type 0
unfolding PlainName
PlainRpc r =
    PlainName r.name × (plain (or_empty r.command) ≡ true) × (plain (or_empty r.result) ≡ true)

-- no newline in the names and the type references of a service
unfoldable pub PlainService : Service → Type 0
unfolding PlainRpc
PlainService s = PlainName s.name × All PlainRpc s.rpcs

required-plain :
    (name : Option Str) → PlainName name → Returns (λ n. plain n ≡ true) (required name)
unfolding required PlainName
required-plain none h = tt
required-plain (some n) h = h

abbrev AllSkipped : List (List Str) → Type 0
AllSkipped bs = All Skipped bs

handler_blocks-Skipped :
    (svc_name package_name : Str) (rs : List Rpc)
    → plain svc_name ≡ true
    → All PlainRpc rs
    → Returns AllSkipped (handler_blocks svc_name package_name rs)
unfolding handler_blocks PlainRpc
handler_blocks-Skipped svc_name package_name [] h hs = tt
handler_blocks-Skipped svc_name package_name (r ∷ rs) h ((hn, hc, hr), hs) =
    Returns-bind PlainTypes AllSkipped (get_rpc_types r svc_name package_name) _
      (get_rpc_types-plain r svc_name package_name h hc hr)
      (λ info types.
        Returns-bind (λ n. plain n ≡ true) AllSkipped (required r.name) _ (required-plain r.name hn)
          (λ n plain_name.
            Returns-bind AllSkipped AllSkipped (handler_blocks svc_name package_name rs) _
              (handler_blocks-Skipped svc_name package_name rs h hs)
              (λ rest skipped. (handler_lines-Skipped n info plain_name types, skipped))))

service_blocks-Skipped :
    (package_name : Str) (s : Service)
    → PlainService s
    → Returns AllSkipped (service_blocks package_name s)
unfolding service_blocks PlainService
service_blocks-Skipped package_name s (hn, hs) =
    Returns-bind (λ n. plain n ≡ true) AllSkipped (required s.name) _ (required-plain s.name hn)
      (λ n h. elim (Bool-cases (str_eq n (codes "common"))) [
        | inl common ↦ rw common tt
        | inr other ↦ rw other (
            Returns-bind AllSkipped AllSkipped (handler_blocks n package_name s.rpcs) _
              (handler_blocks-Skipped n package_name s.rpcs h hs)
              (λ handlers skipped. (service_heading-Skipped n h, skipped)))
      ])

services_blocks-Skipped :
    (package_name : Str) (ss : List Service)
    → All PlainService ss
    → Returns AllSkipped (services_blocks package_name ss)
unfolding services_blocks
services_blocks-Skipped package_name [] h = tt
services_blocks-Skipped package_name (s ∷ ss) (h, hs) =
    Returns-bind AllSkipped AllSkipped (service_blocks package_name s) _
      (service_blocks-Skipped package_name s h)
      (λ blocks skipped.
        Returns-bind AllSkipped AllSkipped (services_blocks package_name ss) _
          (services_blocks-Skipped package_name ss hs)
          (λ rest more. All-append Skipped blocks rest skipped more))

-- the blocks at the top of the file
file_comment-Skipped : Skipped file_comment
unfolding file_comment is_line
file_comment-Skipped = ((refl, (refl, (refl, (refl, (refl, tt))))), key_token-comment _ _)

includes-Skipped : Skipped includes
unfolding includes is_line key_token strip lstrip rstrip unless_blank is_space is_header str_eq
    starts_with join
includes-Skipped = ((refl, (refl, (refl, (refl, (refl, tt))))), refl)

log_module-Skipped : Skipped log_module
unfolding log_module is_line key_token strip lstrip rstrip unless_blank is_space is_header str_eq
    starts_with join
log_module-Skipped = ((refl, tt), refl)

empty_block : key_token [] ≡ none
unfolding key_token strip lstrip rstrip unless_blank is_space is_header str_eq starts_with join
empty_block = refl

-- where every block is skipped, nothing is added
additions-Skipped :
    (existing : Str) (bs : List (List Str))
    → AllSkipped bs
    → additions existing (map joined bs ++ [] ∷ []) ≡ []
unfolding additions
additions-Skipped existing [] h = unfold add_block in rw empty_block refl
additions-Skipped existing (b ∷ bs) (h, hs) =
    unfold add_block in rw h.1 (additions-Skipped existing bs hs)

Skipped-IsBlock : (bs : List (List Str)) → AllSkipped bs → All IsBlock bs
Skipped-IsBlock [] h = tt
Skipped-IsBlock (b ∷ bs) (h, hs) = (h.0, Skipped-IsBlock bs hs)

skeleton-Skipped :
    (spec_data : Spec) (package_name existing : Str)
    → All PlainService spec_data.services
    → Returns
        (λ content. additions existing (split_paragraphs false content) ≡ [])
        (generate_callbacks_skeleton spec_data package_name)
unfolding generate_callbacks_skeleton
skeleton-Skipped spec_data package_name existing h =
    Returns-bind AllSkipped (λ content. additions existing (split_paragraphs false content) ≡ [])
      (services_blocks package_name spec_data.services) _
      (services_blocks-Skipped package_name spec_data.services h)
      (λ blocks skipped.
        let bs : List (List Str) = file_comment ∷ includes ∷ log_module ∷ blocks in
        let every : AllSkipped bs =
          (file_comment-Skipped, (includes-Skipped, (log_module-Skipped, skipped))) in
        rw (split_blocks bs (Skipped-IsBlock bs every)) (additions-Skipped existing bs every))

-- The generated callbacks of a specification, in whose names and type references no newline stands,
-- add nothing to a callbacks file that exists: each handler begins with a `/**` comment and is
-- skipped, also where the RPC is new.
pub merge-callbacks :
    (copy2 : Str → Option Str → Option Str) (spec_data : Spec) (package_name content existing : Str)
    (files : Files)
    → All PlainService spec_data.services
    → generate_callbacks_skeleton spec_data package_name ≡ ok content
    → files.file ≡ some existing
    → (write_smart_merge copy2 content files).file ≡ files.file
unfolding write_smart_merge appended
merge-callbacks copy2 spec_data package_name content existing files h e present =
    let nothing : additions existing (split_paragraphs false content) ≡ [] = (rw e at skeleton) in
    rw (present, nothing) (ap (λ t. some t) (append-nil existing))
  where
    skeleton :
        Returns
          (λ content. additions existing (split_paragraphs false content) ≡ [])
          (generate_callbacks_skeleton spec_data package_name)
    skeleton = skeleton-Skipped spec_data package_name existing h
