-- ===== src/Proto/Files/SelfImport.antt =====
-- The file of the common types imports itself.
use mathlib.Core.Path.{subst}
use windrpc.Base.{
  ◌≡◌, refl, sym, ap, ◌∙◌, inl, inr, true, false, none, some, List, [], ◌∷◌, ◌++◌, append_assoc,
  arith,
}
use windrpc.Base.Text.{Str, codes, str_eq, str_eq_refl, All-str_mem, str_mem, split, extend, lower}
use windrpc.Base.Result.{ok, ok_value, bind-ok}
use windrpc.Spec.{Field, Message, Spec}
use windrpc.Spec.Required.{required}
use windrpc.Validator.Types.{common_types, service_types}
use windrpc.Server.Dispatch.Members.{With}
use windrpc.Proto.Resolve.{
  scalar_types, file_parts, import_path, generate_import_paths, resolve_type_name, declared_types,
  or_common, is_local, last_part,
}
use windrpc.Proto.Resolve.Imports.{
  Imported, FileImported, generate_import_paths_lem, str_mem-append, str_mem-append_right,
}
use windrpc.Proto.Resolve.Shadow.{
  Undotted, split-dotted, split-Undotted, has_dot-qualified, dotted_apart, scalar_types_bare,
}
use windrpc.Proto.Enums.{generate_enums_from_spec}
use windrpc.Proto.Files.{
  ProtoFile, ProtoMessage, ProtoField, message_types, generate_types_proto, field_types,
  oneof_types, format_field, proto_field, proto_fields, proto_oneofs, proto_message, proto_messages,
}

-- the line that imports the file of the common types
abbrev pub types_import : Str → Str
types_import package_prefix =
    import_path (package_prefix ∷ codes "windrpc" ∷ codes "types/types.proto" ∷ [])

split-common :
    (package_prefix name : Str)
    → Undotted package_prefix
    → Undotted name
    → split b'.' (package_prefix ++ codes ".windrpc.types." ++ name)
      ≡ package_prefix ∷ codes "windrpc" ∷ codes "types" ∷ name ∷ []
unfolding split extend
split-common package_prefix name hp hn =
    rw (append_assoc package_prefix (codes ".windrpc.types.") name) (
      split-dotted package_prefix (codes "windrpc.types." ++ name) hp
      ∙ ap (λ l. package_prefix ∷ l) (rw (split-Undotted name hn) refl))

not_scalar :
    (package_prefix name : Str)
    → str_mem (package_prefix ++ codes ".windrpc.types." ++ name) scalar_types ≡ false
not_scalar package_prefix name =
    dotted_apart (package_prefix ++ codes ".windrpc.types." ++ name) scalar_types
      (rw (append_assoc package_prefix (codes ".windrpc.types.") name)
        (has_dot-qualified package_prefix (codes "windrpc.types." ++ name)))
      scalar_types_bare

types-Imported :
    (package_prefix name : Str) (imports : List Str)
    → Undotted package_prefix
    → Undotted name
    → Imported imports (package_prefix ++ codes ".windrpc.types." ++ name)
    → str_mem (types_import package_prefix) imports ≡ true
unfolding Imported FileImported file_parts str_eq
types-Imported package_prefix name imports hp hn h = elim h [
  | inl scalar ↦ absurd (cc (rw (not_scalar package_prefix name) at scalar))
  | inr there ↦ rw (split-common package_prefix name hp hn) at there
]

resolve_common :
    (spec_data : Spec) (package_prefix name : Str)
    → Undotted name
    → service_types spec_data.services (codes "types") ≡ none
    → str_mem (lower name) scalar_types ≡ false
    → str_mem name (common_types spec_data) ≡ true
    → resolve_type_name spec_data package_prefix name none
      ≡ ok (package_prefix ++ codes ".windrpc.types." ++ name)
unfolding resolve_type_name is_local declared_types or_common last_part str_eq
resolve_common spec_data package_prefix name hn unnamed other is_common =
    rw (other, split-Undotted name hn, unnamed, is_common) refl

-- a field's type is among those of its message and of the file
module _ (spec_data : Spec) (package_prefix : Str) (f : Field) (n t : Str)
    (given : f.type_name ≡ some n)
    (resolves : resolve_type_name spec_data package_prefix n none ≡ ok t) where
  field_types-With :
      (before after : List Field) (ps : List ProtoField)
      → proto_fields spec_data package_prefix none (before ++ f ∷ after) ≡ ok ps
      → str_mem t (field_types ps) ≡ true
  unfolding proto_fields proto_field format_field field_types str_mem ok_value required
  field_types-With [] after ps h =
      let (first, hf, h1) = bind-ok (proto_field spec_data package_prefix none f) _ h in
      let (more, hm, h2) = bind-ok (proto_fields spec_data package_prefix none after) _ h1 in
      let hf' = rw (given, resolves) at hf in
      let (name, hn, h3) = bind-ok (required f.name) _ hf' in
      let (number, hu, h4) = bind-ok (required f.number) _ h3 in
      let same : t ≡ first.type_name = ap (λ x. (ok_value first x).type_name) h4 in
      rw (sym (ap (ok_value ps) h2), sym same, str_eq_refl t) refl
  field_types-With (b ∷ before) after ps h =
      let (first, hf, h1) = bind-ok (proto_field spec_data package_prefix none b) _ h in
      let (more, hm, h2) =
        bind-ok (proto_fields spec_data package_prefix none (before ++ f ∷ after)) _ h1 in
      rw (sym (ap (ok_value ps) h2)) (ground (arith, field_types-With before after more hm))

  field_types-str_mem :
      (fs : List Field) (ps : List ProtoField)
      → With f fs
      → proto_fields spec_data package_prefix none fs ≡ ok ps
      → str_mem t (field_types ps) ≡ true
  field_types-str_mem fs ps (before, after, there) h =
      field_types-With before after ps
        (subst (λ l. proto_fields spec_data package_prefix none l ≡ ok ps) there h)

  message_types-With :
      (m : Message) (before after : List Message) (ps : List ProtoMessage)
      → With f m.fields
      → proto_messages spec_data package_prefix none (before ++ m ∷ after) ≡ ok ps
      → str_mem t (message_types ps) ≡ true
  unfolding proto_messages proto_message message_types ok_value
  message_types-With m [] after ps there h =
      let (first, hf, h1) = bind-ok (proto_message spec_data package_prefix none m) _ h in
      let (more, hm, h2) = bind-ok (proto_messages spec_data package_prefix none after) _ h1 in
      let (name, hn, f1) = bind-ok (required m.name) _ hf in
      let (oneofs, ho, f2) = bind-ok (proto_oneofs spec_data package_prefix none m.oneofs) _ f1 in
      let (fields, hl, f3) = bind-ok (proto_fields spec_data package_prefix none m.fields) _ f2 in
      let own : str_mem t (field_types fields) ≡ true =
        field_types-str_mem m.fields fields there hl in
      let is_first : fields ≡ first.fields = ap (λ x. (ok_value first x).fields) f3 in
      rw (sym (ap (ok_value ps) h2), sym is_first)
        (str_mem-append t (oneof_types first.oneofs ++ field_types fields) (message_types more)
          (str_mem-append_right t (oneof_types first.oneofs) (field_types fields) own))
  message_types-With m (b ∷ before) after ps w h =
      let (first, hf, h1) = bind-ok (proto_message spec_data package_prefix none b) _ h in
      let (more, hm, h2) =
        bind-ok (proto_messages spec_data package_prefix none (before ++ m ∷ after)) _ h1 in
      rw (sym (ap (ok_value ps) h2)) (
        str_mem-append_right t (oneof_types first.oneofs ++ field_types first.fields)
          (message_types more) (message_types-With m before after more w hm))

  message_types-str_mem :
      (m : Message) (ms : List Message) (ps : List ProtoMessage)
      → With m ms
      → With f m.fields
      → proto_messages spec_data package_prefix none ms ≡ ok ps
      → str_mem t (message_types ps) ≡ true
  message_types-str_mem m ms ps (before, after, here) there h =
      message_types-With m before after ps there
        (subst (λ l. proto_messages spec_data package_prefix none l ≡ ok ps) here h)

-- A field of a common message whose type is a common type, given by its bare name, makes the file of the
-- common types import itself, provided that no service is called `types`.
pub generate_types_proto-types_import :
    (spec_data : Spec) (package_prefix : Str) (file : ProtoFile) (m : Message) (f : Field)
    (name : Str)
    → generate_types_proto spec_data package_prefix ≡ ok file
    → Undotted package_prefix
    → Undotted name
    → service_types spec_data.services (codes "types") ≡ none
    → With m spec_data.messages
    → With f m.fields
    → f.type_name ≡ some name
    → str_mem (lower name) scalar_types ≡ false
    → str_mem name (common_types spec_data) ≡ true
    → str_mem (types_import package_prefix) file.imports ≡ true
unfolding generate_types_proto ok_value
generate_types_proto-types_import spec_data package_prefix file m f name h hp hn unnamed here there
      given other is_common =
    let (enums, he, h1) = bind-ok (generate_enums_from_spec spec_data.enums) _ h in
    let (messages, hm, h2) =
      bind-ok (proto_messages spec_data package_prefix none spec_data.messages) _ h1 in
    let full : Str = package_prefix ++ codes ".windrpc.types." ++ name in
    let used : str_mem full (message_types messages) ≡ true =
      message_types-str_mem spec_data package_prefix f name full given
        (resolve_common spec_data package_prefix name hn unnamed other is_common) m
        spec_data.messages messages here there hm in
    let imports : generate_import_paths (message_types messages) ≡ file.imports =
      ap (λ x. (ok_value file x).imports) h2 in
    types-Imported package_prefix name file.imports hp hn (
      rw⁻¹ imports (
        All-str_mem (Imported (generate_import_paths (message_types messages))) full
          (message_types messages) (generate_import_paths_lem (message_types messages)).1 used))
