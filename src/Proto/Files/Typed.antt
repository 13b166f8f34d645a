-- ===== src/Proto/Files/Typed.antt =====
-- Every type in the file of a service is declared, and its file is imported.
use mathlib.Core.Path.{subst}
use windrpc.Base.{
  ◌≡◌, refl, sym, ap, ◌∙◌, inl, inr, Bool, true, ℕ, Option, none, some, List, [], ◌∷◌, ◌++◌, All,
  All-append, Option-cases,
}
use windrpc.Base.Text.{Str, codes, str_eq_refl}
use windrpc.Base.Result.{Result, ok, raise, ok_value, bind-ok}
use windrpc.Spec.{Field, Oneof, Message, Service, Spec}
use windrpc.Spec.Required.{required}
use windrpc.Validator.Types.{
  service_types, is_valid_type, oneof_fields, all_fields, is_named, or_here, own_types,
}
use windrpc.Validator.Enums.{name_or_na}
use windrpc.Validator.Whole.{validate}
use windrpc.Validator.Whole.References.{HasValidType, FieldsValid, validate-FieldsValid}
use windrpc.Server.Dispatch.Members.{With}
use windrpc.Server.Dispatch.Lookup.{All-left}
use windrpc.Validator.Whole.RequestIds.{All-right}
use windrpc.Proto.Enums.{generate_enums_from_spec}
use windrpc.Proto.Resolve.{resolve_type_name, generate_import_paths}
use windrpc.Proto.Resolve.Imports.{Imported, generate_import_paths_lem}
use windrpc.Proto.Resolve.Known.{Known, HasTypes, IsPascalName, resolve_type_name-Known}
use windrpc.Proto.Files.{
  ProtoFile, ProtoMessage, ProtoOneof, ProtoField, field_types, oneof_types, message_types,
  format_field, proto_field, proto_fields, proto_oneofs, proto_message, proto_messages,
  generate_service_proto, doc_lines, mentioned_types, message_type_names, rpc_type_names,
  rpcs_types,
}

-- what a field gives as its type is a scalar, or its last part is in Pascal case
abbrev pub IsPascal : Option Str → Type 0
IsPascal none = Unit
IsPascal (some t) = IsPascalName t

abbrev pub TypeIsPascal : Field → Type 0
TypeIsPascal f = IsPascal f.type_name

module _ (spec : Spec) (package_prefix : Str) (current : Option Str)
    (unnamed : service_types spec.services (codes "types") ≡ none)
    (has : HasTypes spec package_prefix current) where
  type-Known :
      (name : Option Str) (t resolved : Str)
      → is_valid_type spec current name ≡ true
      → IsPascal name
      → required name ≡ ok t
      → resolve_type_name spec package_prefix t current ≡ ok resolved
      → Known spec package_prefix current resolved
  unfolding required ok_value
  type-Known none t resolved valid pascal h r = absurd (cc h)
  type-Known (some n) t resolved valid pascal h r =
      let (s, e, known) =
        resolve_type_name-Known spec package_prefix unnamed current has n valid pascal in
      let same : n ≡ t = ap (ok_value n) h in
      let r' : resolve_type_name spec package_prefix n current ≡ ok resolved = rw same r in
      let found : s ≡ resolved = ap (ok_value s) (sym e ∙ r') in rw⁻¹ found known

  field-Known :
      (f : Field) (p : ProtoField)
      → HasValidType spec current f
      → TypeIsPascal f
      → proto_field spec package_prefix current f ≡ ok p
      → Known spec package_prefix current p.type_name
  unfolding proto_field format_field ok_value
  field-Known f p valid pascal h =
      let (t, ht, h1) = bind-ok (required f.type_name) _ h in
      let (resolved, hr, h2) = bind-ok (resolve_type_name spec package_prefix t current) _ h1 in
      let (name, hn, h3) = bind-ok (required f.name) _ h2 in
      let (number, hu, h4) = bind-ok (required f.number) _ h3 in
      let same : resolved ≡ p.type_name = ap (λ x. (ok_value p x).type_name) h4 in
      rw⁻¹ same (type-Known f.type_name t resolved valid pascal ht hr)

  fields-Known :
      (fs : List Field) (ps : List ProtoField)
      → All (HasValidType spec current) fs
      → All TypeIsPascal fs
      → proto_fields spec package_prefix current fs ≡ ok ps
      → All (Known spec package_prefix current) (field_types ps)
  unfolding proto_fields field_types ok_value
  fields-Known [] ps valid pascal h = rw (sym (ap (ok_value ps) h)) tt
  fields-Known (f ∷ fs) ps valid pascal h =
      let (first, hf, h1) = bind-ok (proto_field spec package_prefix current f) _ h in
      let (more, hm, h2) = bind-ok (proto_fields spec package_prefix current fs) _ h1 in
      rw (sym (ap (ok_value ps) h2))
        (field-Known f first valid.0 pascal.0 hf, fields-Known fs more valid.1 pascal.1 hm)

  oneofs-Known :
      (os : List Oneof) (ps : List ProtoOneof)
      → All (HasValidType spec current) (oneof_fields os)
      → All TypeIsPascal (oneof_fields os)
      → proto_oneofs spec package_prefix current os ≡ ok ps
      → All (Known spec package_prefix current) (oneof_types ps)
  unfolding proto_oneofs oneof_fields oneof_types ok_value
  oneofs-Known [] ps valid pascal h = rw (sym (ap (ok_value ps) h)) tt
  oneofs-Known (o ∷ os) ps valid pascal h =
      let (name, hn, h1) = bind-ok (required o.name) _ h in
      let (fields, hf, h2) = bind-ok (proto_fields spec package_prefix current o.fields) _ h1 in
      let (more, hm, h3) = bind-ok (proto_oneofs spec package_prefix current os) _ h2 in
      rw (sym (ap (ok_value ps) h3)) (
        All-append (Known spec package_prefix current) (field_types fields) (oneof_types more)
          (fields-Known o.fields fields
            (All-left (HasValidType spec current) o.fields (oneof_fields os) valid)
            (All-left TypeIsPascal o.fields (oneof_fields os) pascal) hf)
          (oneofs-Known os more
            (All-right (HasValidType spec current) o.fields (oneof_fields os) valid)
            (All-right TypeIsPascal o.fields (oneof_fields os) pascal) hm))

  messages-Known :
      (ms : List Message) (ps : List ProtoMessage)
      → All (FieldsValid spec current) ms
      → All (λ m. All TypeIsPascal (all_fields m)) ms
      → proto_messages spec package_prefix current ms ≡ ok ps
      → All (Known spec package_prefix current) (message_types ps)
  unfolding proto_messages proto_message message_types all_fields ok_value
  messages-Known [] ps valid pascal h = rw (sym (ap (ok_value ps) h)) tt
  messages-Known (m ∷ ms) ps valid pascal h =
      let (first, hf, h1) = bind-ok (proto_message spec package_prefix current m) _ h in
      let (more, hm, h2) = bind-ok (proto_messages spec package_prefix current ms) _ h1 in
      let (name, hn, f1) = bind-ok (required m.name) _ hf in
      let (oneofs, ho, f2) = bind-ok (proto_oneofs spec package_prefix current m.oneofs) _ f1 in
      let (fields, hl, f3) = bind-ok (proto_fields spec package_prefix current m.fields) _ f2 in
      let own : All (Known spec package_prefix current) (oneof_types oneofs ++ field_types fields) =
        All-append (Known spec package_prefix current) (oneof_types oneofs) (field_types fields)
          (oneofs-Known m.oneofs oneofs
            (All-right (HasValidType spec current) m.fields (oneof_fields m.oneofs) valid.0)
            (All-right TypeIsPascal m.fields (oneof_fields m.oneofs) pascal.0) ho)
          (fields-Known m.fields fields
            (All-left (HasValidType spec current) m.fields (oneof_fields m.oneofs) valid.0)
            (All-left TypeIsPascal m.fields (oneof_fields m.oneofs) pascal.0) hl) in
      rw (sym (ap (ok_value ps) h2), sym (ap (ok_value first) f3))
        (All-append (Known spec package_prefix current) (oneof_types oneofs ++ field_types fields)
          (message_types more) own (messages-Known ms more valid.1 pascal.1 hm))

-- a service of the list has an entry in the dict of types
own-HasTypes :
    (services : List Service) (s : Service) (name : Str)
    → With s services
    → s.name ≡ some name
    → (names : List Str) × (service_types services name ≡ some names)
unfolding service_types or_here is_named
own-HasTypes [] s name ([], after, e) h = absurd (cc e)
own-HasTypes [] s name (b ∷ before, after, e) h = absurd (cc e)
own-HasTypes (q ∷ services) s name ([], after, e) h =
    let same : q ≡ s = cc e in
    elim (Option-cases (service_types services name)) [
      | inl none_later ↦ (own_types q, rw (none_later, same, h, str_eq_refl name) refl)
      | inr (names, later) ↦ (names, rw later refl)
    ]
own-HasTypes (q ∷ services) s name (b ∷ before, after, e) h =
    let (names, later) = own-HasTypes services s name (before, after, cc e) h in
    (names, rw later refl)

file_or : ProtoFile → Result (ProtoFile × List (Str × ℕ)) → ProtoFile
file_or d (ok r) = r.0
file_or d (raise e) = d

required-some : (o : Option Str) (name : Str) → required o ≡ ok name → o ≡ some name
unfolding required ok_value
required-some none name h = absurd (cc h)
required-some (some n) name h = ap (λ x. some (ok_value n x)) h

All-both : (P Q : Str → Type 0) (xs : List Str) → All P xs → All Q xs → All (λ x. P x × Q x) xs
All-both P Q [] hp hq = tt
All-both P Q (x ∷ xs) hp hq = ((hp.0, hq.0), All-both P Q xs hp.1 hq.1)

module _ (strict : Bool) (spec : Spec) (package_prefix : Str) (s : Service) (file : ProtoFile)
    (docs : List (Str × ℕ)) (valid : (validate strict spec).errors ≡ [])
    (there : With s spec.services)
    (generated : generate_service_proto s spec package_prefix ≡ ok (file, docs))
    (pascal : All (λ m. All TypeIsPascal (all_fields m)) s.messages) where
  -- In the file of a service of a specification without errors, whose fields name scalars or
  -- types in Pascal case, the type of each field is a scalar, a type of the service, a common type, or a type of
  -- the service that it names, and the file of each type that is not the service's own is imported.
  pub generate_service_proto-Known :
      All
        (λ t. Known spec package_prefix s.name t × Imported file.imports t)
        (message_types file.messages)
  unfolding generate_service_proto file_or name_or_na
  generate_service_proto-Known =
      let (name, hn, h1) = bind-ok (required s.name) _ generated in
      let (own_docs, hd, h2) = bind-ok (doc_lines s.id s.rpcs) _ h1 in
      let (mentioned, hm, h3) =
        bind-ok
          (mentioned_types spec package_prefix name
            (message_type_names s.messages ++ rpc_type_names s.rpcs))
          _ h2 in
      let (enums, he, h4) = bind-ok (generate_enums_from_spec s.enums) _ h3 in
      let (messages, hg, h5) =
        bind-ok (proto_messages spec package_prefix (some name) s.messages) _ h4 in
      let (types, ht, h6) = bind-ok (rpcs_types spec package_prefix name s.rpcs) _ h5 in
      let named : s.name ≡ some name = required-some s.name name hn in
      let (fields_valid, unnamed) = validate-FieldsValid strict spec s valid there in
      let checked : All (FieldsValid spec (some name)) s.messages =
        subst (λ n. All (FieldsValid spec (some (name_or_na n))) s.messages) named fields_valid in
      let known : All (Known spec package_prefix (some name)) (message_types messages) =
        messages-Known spec package_prefix (some name) unnamed
          (own-HasTypes spec.services s name there named) s.messages messages checked pascal hg in
      let all : List Str = (mentioned ++ message_types messages) ++ types in
      let imported : All (Imported (generate_import_paths all)) (message_types messages) =
        All-right (Imported (generate_import_paths all)) mentioned (message_types messages) (
          All-left (Imported (generate_import_paths all)) (mentioned ++ message_types messages)
            types (generate_import_paths_lem all).1) in
      let same_messages : messages ≡ file.messages = ap (λ x. (file_or file x).messages) h6 in
      let same_imports : generate_import_paths all ≡ file.imports =
        ap (λ x. (file_or file x).imports) h6 in
      rw (named, sym same_messages, sym same_imports)
        (All-both (Known spec package_prefix (some name)) (Imported (generate_import_paths all))
          (message_types messages) known imported)
