-- ===== src/Server/Merge/Keys.antt =====
-- The key of a block stands in the block.
use mathlib.Core.Bool.{Bool, true, false, ◌||◌}
use mathlib.Core.List.{map-id}
use windrpc.Base.{
  ==_iff, ℕ, ◌≡◌, refl, sym, ap, ◌⊎◌, inl, inr, some, List, [], ◌∷◌, ◌++◌, map, ◌==◌, All,
  Bool-cases,
}
use windrpc.Base.Text.{Str, extend}
use windrpc.Base.Pieces.{
  newline, is_space, lstrip, rstrip, unless_blank, strip, lines, words, pieces, nonempty,
  split_paragraphs, IsPart, IsPart-refl, IsPart-cons, IsPart-trans,
}
use windrpc.Server.Merge.{
  is_comment, sig_line, spaced, first_key, is_key, key_token, is_header, is_declaration,
}

IsPart-nil : (s : Str) → IsPart [] s
unfolding IsPart
IsPart-nil s = ([], s, refl)

lstrip-IsPart : (s : Str) → IsPart (lstrip s) s
unfolding lstrip
lstrip-IsPart [] = IsPart-refl []
lstrip-IsPart (c ∷ s) = elim (Bool-cases (is_space c)) [
  | inl h ↦ rw h (IsPart-cons c (lstrip s) s (lstrip-IsPart s))
  | inr h ↦ rw h (IsPart-refl (c ∷ s))
]

-- the text without the spaces at its end begins the text
rstrip_rest : (s : Str) → (b : Str) × (s ≡ rstrip s ++ b)
unfolding rstrip
rstrip_rest [] = ([], refl)
rstrip_rest (c ∷ s) = let (b, e) = rstrip_rest s in kept (rstrip s) b e
  where
    kept : (t b : Str) → s ≡ t ++ b → (b' : Str) × (c ∷ s ≡ unless_blank c t ++ b')
    kept [] b e = elim (Bool-cases (is_space c)) [
      | inl h ↦ (c ∷ s, rw h refl)
      | inr h ↦ (s, rw h refl)
    ]
    kept (d ∷ t) b e = (b, ap (λ l. c ∷ l) e)

strip-IsPart : (s : Str) → IsPart (strip s) s
unfolding strip
strip-IsPart s =
    IsPart-trans (rstrip (lstrip s)) (lstrip s) s
      (let (b, e) = rstrip_rest (lstrip s) in unfold IsPart in ([], b, e)) (lstrip-IsPart s)

-- what a text is cut into: its beginning, and other parts of it
abbrev Cut : Str → List Str → Type 0
Cut s ps =
    (p : Str) × (rest : List Str) × (b : Str) × (ps ≡ p ∷ rest)
    × (s ≡ p ++ b)
    × All (λ q. IsPart q s) rest

cons-All :
    (c : ℕ) (s : Str) (ps : List Str) → All (λ q. IsPart q s) ps → All (λ q. IsPart q (c ∷ s)) ps
cons-All c s [] h = tt
cons-All c s (p ∷ ps) (h, hs) = (IsPart-cons c p s h, cons-All c s ps hs)

begin-IsPart : (p b s : Str) → s ≡ p ++ b → IsPart p s
unfolding IsPart
begin-IsPart p b s e = ([], b, e)

extend-Cut : (c : ℕ) (s : Str) (ps : List Str) → Cut s ps → Cut (c ∷ s) (extend c ps)
extend-Cut c s ps (p, rest, b, e, f, h) =
    (c ∷ p, rest, b, unfold extend in rw e refl, ap (λ l. c ∷ l) f, cons-All c s rest h)

new-Cut : (c : ℕ) (s : Str) (ps : List Str) → Cut s ps → Cut (c ∷ s) ([] ∷ ps)
new-Cut c s ps (p, rest, b, e, f, h) = (
  [],
  ps,
  c ∷ s,
  refl,
  refl,
  rw e (IsPart-cons c p s (begin-IsPart p b s f), cons-All c s rest h),
)

Cut-All : (s : Str) (ps : List Str) → Cut s ps → All (λ q. IsPart q s) ps
Cut-All s ps (p, rest, b, e, f, h) = rw e (begin-IsPart p b s f, h)

module _ (cuts : ℕ → Bool) (change : ℕ → ℕ)
    (same : (c : ℕ) → (change c ≡ c) ⊎ (cuts (change c) ≡ true)) where
  pieces-Cut : (s : Str) → Cut s (pieces cuts (map change s))
  unfolding pieces
  pieces-Cut [] = ([], [], [], refl, refl, tt)
  pieces-Cut (c ∷ s) =
      let rest : Cut s (pieces cuts (map change s)) = pieces-Cut s in
      elim (Bool-cases (cuts (change c))) [
        | inl h ↦ rw h (new-Cut c s (pieces cuts (map change s)) rest)
        | inr h ↦ rw (h, unchanged c h) (extend-Cut c s (pieces cuts (map change s)) rest)
      ]
    where
      unchanged : (c : ℕ) → cuts (change c) ≡ false → change c ≡ c
      unchanged c h = elim (same c) [ inl e ↦ e | inr e ↦ cc (e, h) ]

nonempty-All :
    (s : Str) (ps : List Str) → All (λ q. IsPart q s) ps → All (λ q. IsPart q s) (nonempty ps)
unfolding nonempty
nonempty-All s [] h = tt
nonempty-All s ([] ∷ ps) h = nonempty-All s ps h.1
nonempty-All s ((c ∷ p) ∷ ps) h = (h.0, nonempty-All s ps h.1)

spaced-cases : (c : ℕ) → (spaced c ≡ c) ⊎ (is_space (spaced c) ≡ true)
unfolding spaced is_space
spaced-cases c = elim (Bool-cases ((c == b'(') || (c == b')') || (c == b'{') || (c == b'='))) [
  | inl h ↦ inr (rw h refl)
  | inr h ↦ inl (rw h refl)
]

tokens-IsPart : (s : Str) → All (λ q. IsPart q s) (words (map spaced s))
unfolding words
tokens-IsPart s =
    nonempty-All s (pieces is_space (map spaced s))
      (Cut-All s (pieces is_space (map spaced s)) (pieces-Cut is_space spaced spaced-cases s))

first_key-All :
    (P : Str → Type 0) (ts : List Str) (k : Str) → All P ts → first_key ts ≡ some k → P k
unfolding first_key
first_key-All P [] k h e = cc (e)
first_key-All P (t ∷ ts) k h e = elim (Bool-cases (is_key t)) [
  | inl found ↦ let same : t ≡ k = cc (found, e) in rw (sym same) h.0
  | inr other ↦ first_key-All P ts k h.1 (rw other at e)
]

sig_line-All : (P : Str → Type 0) (ls : List Str) → P [] → All P ls → P (sig_line ls)
unfolding sig_line
sig_line-All P [] none_left h = none_left
sig_line-All P (l ∷ ls) none_left h = elim (Bool-cases (is_comment l)) [
  | inl comment ↦ rw comment (sig_line-All P ls none_left h.1)
  | inr code ↦ rw code h.0
]

lines-IsPart : (s : Str) → All (λ q. IsPart q s) (lines s)
unfolding lines
lines-IsPart s =
    let cut : All (λ q. IsPart q s) (pieces (λ c. c == newline) (map (λ c. c) s)) =
      Cut-All s (pieces (λ c. c == newline) (map (λ c. c) s))
        (pieces-Cut (λ c. c == newline) (λ c. c) (λ c. inl refl) s) in
    (rw (map-id s) at cut)

-- a block with a key is no header and no declaration
pub key_token-first_key :
    (block k : Str)
    → key_token block ≡ some k
    → first_key (words (map spaced (sig_line (lines (strip block))))) ≡ some k
unfolding key_token
key_token-first_key block k e =
    elim (Bool-cases (is_header (strip block) || is_declaration (sig_line (lines (strip block))))) [
      | inl skipped ↦ cc (rw skipped at e)
      | inr kept ↦ (rw kept at e)
    ]

pub key_token-IsPart : (block k : Str) → key_token block ≡ some k → IsPart k block
key_token-IsPart block k e =
    let sig : Str = sig_line (lines (strip block)) in
    let in_sig : IsPart k sig =
      first_key-All (λ q. IsPart q sig) (words (map spaced sig)) k (tokens-IsPart sig)
        (key_token-first_key block k e) in
    let in_strip : IsPart sig (strip block) =
      sig_line-All (λ q. IsPart q (strip block)) (lines (strip block)) (IsPart-nil (strip block))
        (lines-IsPart (strip block)) in
    IsPart-trans k (strip block) block (IsPart-trans k sig (strip block) in_sig in_strip)
      (strip-IsPart block)

-- the paragraphs of a text are parts of it
held : Bool → Str → Str
held true s = newline ∷ s
held false s = s

pair-Cut : (c : ℕ) (s : Str) (ps : List Str) → Cut s ps → Cut (newline ∷ c ∷ s) ([] ∷ ps)
pair-Cut c s ps h = (
  [],
  ps,
  newline ∷ c ∷ s,
  refl,
  refl,
  cons-All newline (c ∷ s) ps (cons-All c s ps (Cut-All s ps h)),
)

paragraphs-Cut : (first : Bool) (s : Str) → Cut (held first s) (split_paragraphs first s)
unfolding split_paragraphs held
paragraphs-Cut false [] = ([], [], [], refl, refl, tt)
paragraphs-Cut true [] = (newline ∷ [], [], [], refl, refl, tt)
paragraphs-Cut false (c ∷ s) =
    let rest : Cut (held (c == newline) s) (split_paragraphs (c == newline) s) =
      paragraphs-Cut (c == newline) s in
    elim (Bool-cases (c == newline)) [
      | inl h ↦ rw (h, (==_iff c newline).0 h) (rw h at rest)
      | inr h ↦ rw h (extend-Cut c s (split_paragraphs false s) (rw h at rest))
    ]
paragraphs-Cut true (c ∷ s) =
    let rest : Cut s (split_paragraphs false s) = paragraphs-Cut false s in
    elim (Bool-cases (c == newline)) [
      | inl h ↦ rw h (pair-Cut c s (split_paragraphs false s) rest)
      | inr h ↦ rw h (
          extend-Cut newline (c ∷ s) (extend c (split_paragraphs false s))
            (extend-Cut c s (split_paragraphs false s) rest))
    ]

pub split_paragraphs-IsPart : (s : Str) → All (λ q. IsPart q s) (split_paragraphs false s)
split_paragraphs-IsPart s =
    Cut-All s (split_paragraphs false s) (unfold held in paragraphs-Cut false s)
