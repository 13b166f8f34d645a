-- ===== src/Server/Callbacks/Paragraphs.antt =====
-- A text of blocks is cut into its blocks at its empty lines.
use mathlib.Core.Bool.{Bool, true, false, not}
use mathlib.Core.List.{flatten}
use windrpc.Base.{
  ℕ, ◌≡◌, refl, ap, ◌∙◌, List, [], ◌∷◌, ◌++◌, map, append_assoc, append-nil, all, All, arith, ◌==◌,
}
use windrpc.Base.Text.{Str, extend, join}
use windrpc.Base.Pieces.{newline, split_paragraphs}
use windrpc.Server.Callbacks.{line_texts, block_text}

-- a text without a newline
unfoldable pub plain : Str → Bool
plain s = all (λ c. not (c == newline)) s

-- such a text that is not empty
unfoldable pub is_line : Str → Bool
unfolding plain
is_line [] = false
is_line (c ∷ l) = plain (c ∷ l)

abbrev pub IsLine : Str → Type 0
IsLine l = is_line l ≡ true

pub plain-append : (s t : Str) → plain s ≡ true → plain t ≡ true → plain (s ++ t) ≡ true
unfolding plain
plain-append [] t hs ht = ht
plain-append (c ∷ s) t hs ht = ground (arith, plain-append s t)

split_line :
    (l t p : Str) (ps : List Str)
    → plain l ≡ true
    → split_paragraphs true t ≡ p ∷ ps
    → split_paragraphs false (l ++ newline ∷ t) ≡ (l ++ p) ∷ ps
unfolding split_paragraphs plain extend
split_line [] t p ps h e = e
split_line (c ∷ l) t p ps h e =
    let other : (c == newline) ≡ false = ground arith in
    let rest : split_paragraphs false (l ++ newline ∷ t) ≡ (l ++ p) ∷ ps =
      split_line l t p ps (ground arith) e in
    rw (other, rest) refl

-- a newline that no newline follows
split_held :
    (c : ℕ) (t p : Str) (ps : List Str)
    → (c == newline) ≡ false
    → split_paragraphs false (c ∷ t) ≡ p ∷ ps
    → split_paragraphs true (c ∷ t) ≡ (newline ∷ p) ∷ ps
unfolding split_paragraphs extend
split_held c t p ps other e =
    let e' : extend c (split_paragraphs false t) ≡ p ∷ ps = (rw other at e) in rw (other, e') refl

-- `"\n".join(ls)`
abbrev pub joined : List Str → Str
joined ls = join (newline ∷ []) ls

split_block :
    (l : Str) (ls : List Str) (rest : Str)
    → All IsLine (l ∷ ls)
    → split_paragraphs false (line_texts (l ∷ ls) ++ newline ∷ rest)
      ≡ joined (l ∷ ls) ∷ split_paragraphs false rest
unfolding line_texts join is_line
split_block [] ls rest h = cc (h.0)
split_block (c ∷ l) [] rest h = rw (append_assoc (c ∷ l) (newline ∷ []) (newline ∷ rest)) (
    split_line (c ∷ l) (newline ∷ rest) [] (split_paragraphs false rest) h.0
      (unfold split_paragraphs in refl)
    ∙ ap (λ p. p ∷ split_paragraphs false rest) (append-nil (c ∷ l)))
split_block (c ∷ l) ([] ∷ ls) rest h = cc (h.1.0)
split_block (c ∷ l) ((d ∷ m) ∷ ls) rest h =
    let more : split_paragraphs false (line_texts ((d ∷ m) ∷ ls) ++ newline ∷ rest)
        ≡ joined ((d ∷ m) ∷ ls) ∷ split_paragraphs false rest =
      split_block (d ∷ m) ls rest h.1 in
    let other : (d == newline) ≡ false = first d m h.1.0 in
    rw
      (
        append_assoc (c ∷ l) (newline ∷ line_texts ((d ∷ m) ∷ ls)) (newline ∷ rest),
        append_assoc (c ∷ l) (newline ∷ []) (joined ((d ∷ m) ∷ ls)),
      )
      (split_line (c ∷ l) (line_texts ((d ∷ m) ∷ ls) ++ newline ∷ rest)
        (newline ∷ joined ((d ∷ m) ∷ ls)) (split_paragraphs false rest) h.0
        (split_held d (m ++ (newline ∷ line_texts ls) ++ newline ∷ rest) (joined ((d ∷ m) ∷ ls))
          (split_paragraphs false rest) other more))
  where
    first : (d : ℕ) (m : Str) → plain (d ∷ m) ≡ true → (d == newline) ≡ false
    first d m e = ground arith

-- lines, one at least
abbrev pub IsBlock : List Str → Type 0
IsBlock [] = ⊥
IsBlock (l ∷ ls) = All IsLine (l ∷ ls)

pub split_blocks :
    (bs : List (List Str))
    → All IsBlock bs
    → split_paragraphs false (flatten (map block_text bs)) ≡ map joined bs ++ [] ∷ []
unfolding block_text flatten
split_blocks [] h = unfold split_paragraphs in refl
split_blocks ([] ∷ bs) h = absurd h.0
split_blocks ((l ∷ ls) ∷ bs) h =
    rw (append_assoc (line_texts (l ∷ ls)) (newline ∷ []) (flatten (map block_text bs))) (
      split_block l ls (flatten (map block_text bs)) h.0
      ∙ ap (λ ps. joined (l ∷ ls) ∷ ps) (split_blocks bs h.1))
