-- ===== src/Server/Merge/Again.antt =====
-- What is in the file after a merge.
use mathlib.Core.Bool.{true, false}
use windrpc.Base.{
  append-nil, ◌≡◌, refl, ap, Option, none, some, List, [], ◌∷◌, ◌++◌, All, Bool-cases, Option-cases,
  inl, inr,
}
use windrpc.Base.Text.{Str, codes, join}
use windrpc.Base.Pieces.{
  split_paragraphs, occurs, occurs-append, IsPart, IsPart-refl, IsPart-append_left,
  IsPart-append_right, IsPart-trans, IsPart-occurs,
}
use windrpc.Server.Merge.{
  key_token, additions, add_block, appended, banner, Files, write_smart_merge,
}
use windrpc.Server.Merge.Keys.{key_token-IsPart, split_paragraphs-IsPart}

-- the key, where there is one, stands in the text
unfoldable pub Stands : Str → Option Str → Type 0
Stands text none = Unit
Stands text (some key) = occurs key text ≡ true

unfoldable pub HasKey : Str → Str → Type 0
unfolding Stands
HasKey text block = Stands text (key_token block)

module _ (existing : Str) where
  -- a text with every added block has every key, if it begins with the existing text
  additions-HasKey :
      (behind : Str) (blocks : List Str)
      → All (λ b. IsPart b (existing ++ behind)) (additions existing blocks)
      → All (HasKey (existing ++ behind)) blocks
  unfolding additions HasKey
  additions-HasKey behind [] h = tt
  additions-HasKey behind (b ∷ bs) h = elim (Option-cases (key_token b)) [
    | inl skipped ↦
        (rw skipped tt, additions-HasKey behind bs (unfold add_block in rw skipped at h))
    | inr (key, e) ↦ elim (Bool-cases (occurs key existing)) [
      | inl known ↦ (
        rw e (occurs-append key existing behind known),
        additions-HasKey behind bs (unfold add_block in rw (e, known) at h),
      )
      | inr new ↦
          let parts : All (λ b. IsPart b (existing ++ behind)) (b ∷ additions existing bs) =
            unfold add_block in rw (e, new) at h in
          (
            rw e (
                IsPart-occurs key (existing ++ behind)
                  (IsPart-trans key b (existing ++ behind) (key_token-IsPart b key e) parts.0)),
            additions-HasKey behind bs parts.1,
          )
    ]
  ]

  -- where every key is known, nothing is added
  HasKey-additions :
      (blocks : List Str) → All (HasKey existing) blocks → additions existing blocks ≡ []
  unfolding additions HasKey add_block
  HasKey-additions [] h = refl
  HasKey-additions (b ∷ bs) h = elim (Option-cases (key_token b)) [
    | inl skipped ↦ rw skipped (HasKey-additions bs h.1)
    | inr (key, e) ↦
        let known : occurs key existing ≡ true = (rw e at h.0) in
        rw (e, known) (HasKey-additions bs h.1)
  ]

join-IsPart : (sep : Str) (ps : List Str) → All (λ q. IsPart q (join sep ps)) ps
unfolding join
join-IsPart sep [] = tt
join-IsPart sep (p ∷ []) = (IsPart-refl p, tt)
join-IsPart sep (p ∷ q ∷ ps) = (
  IsPart-append_right p (p ++ sep) (join sep (q ∷ ps))
      (IsPart-append_right p p sep (IsPart-refl p)),
  more (q ∷ ps) (join-IsPart sep (q ∷ ps)),
)
  where
    more :
        (rs : List Str)
        → All (λ r. IsPart r (join sep (q ∷ ps))) rs
        → All (λ r. IsPart r (p ++ sep ++ join sep (q ∷ ps))) rs
    more [] h = tt
    more (r ∷ rs) (h, hs) = (IsPart-append_left (p ++ sep) r (join sep (q ∷ ps)) h, more rs hs)

All-IsPart :
    (s t : Str) (ps : List Str) → IsPart s t → All (λ q. IsPart q s) ps → All (λ q. IsPart q t) ps
All-IsPart s t [] h hs = tt
All-IsPart s t (p ∷ ps) h (hp, hps) = (IsPart-trans p s t hp h, All-IsPart s t ps h hps)

appended-IsPart : (blocks : List Str) → All (λ b. IsPart b (appended blocks)) blocks
unfolding appended
appended-IsPart [] = tt
appended-IsPart (b ∷ bs) =
    let joined : Str = join (codes "\n\n") (b ∷ bs) in
    All-IsPart joined (appended (b ∷ bs)) (b ∷ bs)
      (IsPart-append_right joined (banner ++ joined) (codes "\n")
        (IsPart-append_left banner joined joined (IsPart-refl joined)))
      (join-IsPart (codes "\n\n") (b ∷ bs))

part-HasKey : (text block : Str) → IsPart block text → HasKey text block
unfolding HasKey
part-HasKey text block h = elim (Option-cases (key_token block)) [
  | inl skipped ↦ rw skipped tt
  | inr (key, e) ↦
      rw e (IsPart-occurs key text (IsPart-trans key block text (key_token-IsPart block key e) h))
]

parts-HasKey :
    (text : Str) (blocks : List Str) → All (λ b. IsPart b text) blocks → All (HasKey text) blocks
parts-HasKey text [] h = tt
parts-HasKey text (b ∷ bs) (h, hs) = (part-HasKey text b h, parts-HasKey text bs hs)

-- the file's text after a merge
unfoldable pub merged : Str → Option Str → Str
merged new_content none = new_content
merged new_content (some existing) =
    existing ++ appended (additions existing (split_paragraphs false new_content))

file-merged :
    (copy2 : Str → Option Str → Option Str) (new_content : Str) (files : Files)
    → (write_smart_merge copy2 new_content files).file ≡ some (merged new_content files.file)
unfolding write_smart_merge merged
file-merged copy2 new_content files = elim (Option-cases files.file) [
  | inl absent ↦ rw absent refl
  | inr (existing, present) ↦ rw present refl
]

merged-HasKey :
    (new_content : Str) (file : Option Str)
    → All (HasKey (merged new_content file)) (split_paragraphs false new_content)
unfolding merged
merged-HasKey new_content none =
    parts-HasKey new_content (split_paragraphs false new_content)
      (split_paragraphs-IsPart new_content)
merged-HasKey new_content (some existing) =
    let blocks : List Str = additions existing (split_paragraphs false new_content) in
    additions-HasKey existing (appended blocks) (split_paragraphs false new_content) (
      All-IsPart (appended blocks) (existing ++ appended blocks) blocks
        (IsPart-append_left existing (appended blocks) (appended blocks)
          (IsPart-refl (appended blocks)))
        (appended-IsPart blocks))

-- After a merge into a file that exists, its text stands in front, whatever is behind it, the whole has
-- the key of every block of the new content that has one, and the text that was there goes to the
-- backup, as far as the copy works.
pub write_smart_merge_lem :
    (copy2 : Str → Option Str → Option Str) (new_content existing : Str) (files : Files)
    → files.file ≡ some existing
    → (behind : Str) × ((write_smart_merge copy2 new_content files).file
        ≡ some (existing ++ behind))
      × ((write_smart_merge copy2 new_content files).backup ≡ copy2 existing files.backup)
      × All (HasKey (existing ++ behind)) (split_paragraphs false new_content)
write_smart_merge_lem copy2 new_content existing files present = (
  appended (additions existing (split_paragraphs false new_content)),
  rw (file-merged copy2 new_content files, present) (unfold merged in refl),
  unfold write_smart_merge in rw present refl,
  unfold merged in merged-HasKey new_content (some existing),
)

-- A merge of the same content a second time leaves the file as it is.
pub write_smart_merge_idem :
    (copy2 : Str → Option Str → Option Str) (new_content : Str) (files : Files)
    → (write_smart_merge copy2 new_content (write_smart_merge copy2 new_content files)).file
      ≡ (write_smart_merge copy2 new_content files).file
write_smart_merge_idem copy2 new_content files =
    let first : Files = write_smart_merge copy2 new_content files in
    let text : Str = merged new_content files.file in
    let nothing : additions text (split_paragraphs false new_content) ≡ [] =
      HasKey-additions text (split_paragraphs false new_content)
        (merged-HasKey new_content files.file) in
    rw (file-merged copy2 new_content first, file-merged copy2 new_content files)
      (unfold merged appended in rw nothing (ap (λ t. some t) (append-nil text)))
