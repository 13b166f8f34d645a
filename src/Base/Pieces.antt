-- ===== src/Base/Pieces.antt =====
-- Python's `str.strip`, `str.split` and `in` on texts, and parts of texts.
use windrpc.Base.{
  ℕ, ◌≡◌, refl, sym, ap, ◌∙◌, Bool, true, false, ◌&&◌, ◌||◌, List, [], ◌∷◌, ◌++◌, append_assoc,
  append-nil, arith, leb, ◌==◌, if◌then◌else◌,
}
use windrpc.Base.Text.{Str, str_eq, starts_with, extend, starts_with-append}

abbrev pub newline : ℕ
newline = 10

-- `c.isspace()`
unfoldable pub is_space : ℕ → Bool
is_space c =
    (leb 9 c && leb c 13)
    || (leb 28 c && leb c 32)
    || (c == 133)
    || (c == 160)
    || (c == 5760)
    || (leb 8192 c && leb c 8202)
    || (c == 8232)
    || (c == 8233)
    || (c == 8239)
    || (c == 8287)
    || (c == 12288)

-- `s.lstrip()`
unfoldable pub lstrip : Str → Str
lstrip [] = []
lstrip (c ∷ s) = if is_space c then lstrip s else c ∷ s

-- a character in front of a text whose spaces at the end are gone
unfoldable pub unless_blank : ℕ → Str → Str
unless_blank c [] = if is_space c then [] else c ∷ []
unless_blank c (d ∷ t) = c ∷ d ∷ t

-- `s.rstrip()`
unfoldable pub rstrip : Str → Str
unfolding unless_blank
rstrip [] = []
rstrip (c ∷ s) = unless_blank c (rstrip s)

-- `s.strip()`
unfoldable pub strip : Str → Str
unfolding lstrip rstrip
strip s = rstrip (lstrip s)

-- the text cut at every character of a kind
unfoldable pub pieces : (ℕ → Bool) → Str → List Str
unfolding extend
pieces cuts [] = [] ∷ []
pieces cuts (c ∷ s) = let rest = pieces cuts s in if cuts c then [] ∷ rest else extend c rest

-- `s.split('\n')`
unfoldable pub lines : Str → List Str
unfolding pieces
lines s = pieces (λ c. c == newline) s

unfoldable pub nonempty : List Str → List Str
nonempty [] = []
nonempty ([] ∷ ps) = nonempty ps
nonempty ((c ∷ p) ∷ ps) = (c ∷ p) ∷ nonempty ps

-- `s.split()`
unfoldable pub words : Str → List Str
unfolding pieces nonempty is_space
words s = nonempty (pieces is_space s)

-- `s.split('\n\n')`; the first argument says whether the first newline of a pair was read
unfoldable pub split_paragraphs : Bool → Str → List Str
unfolding extend
split_paragraphs false [] = [] ∷ []
split_paragraphs true [] = (newline ∷ []) ∷ []
split_paragraphs false (c ∷ s) =
    let rest = split_paragraphs (c == newline) s in if c == newline then rest else extend c rest
split_paragraphs true (c ∷ s) =
    let rest = split_paragraphs false s in
    if c == newline then [] ∷ rest else extend newline (extend c rest)

-- `t in s`
unfoldable pub occurs : Str → Str → Bool
unfolding starts_with
occurs t [] = starts_with [] t
occurs t (c ∷ s) = starts_with (c ∷ s) t || occurs t s

-- `s.endswith(t)`
unfoldable pub ends_with : Str → Str → Bool
unfolding str_eq
ends_with [] t = str_eq [] t
ends_with (c ∷ s) t = str_eq (c ∷ s) t || ends_with s t

unfoldable pub IsPart : Str → Str → Type 0
IsPart t s = (a : Str) × (b : Str) × (s ≡ a ++ (t ++ b))

pub IsPart-refl : (s : Str) → IsPart s s
unfolding IsPart
IsPart-refl s = ([], [], sym (append-nil s))

pub IsPart-cons : (c : ℕ) (t s : Str) → IsPart t s → IsPart t (c ∷ s)
unfolding IsPart
IsPart-cons c t s (a, b, e) = (c ∷ a, b, ap (λ l. c ∷ l) e)

pub IsPart-append_left : (a t s : Str) → IsPart t s → IsPart t (a ++ s)
unfolding IsPart
IsPart-append_left a t s (x, y, e) =
    (a ++ x, y, ap (λ l. a ++ l) e ∙ sym (append_assoc a x (t ++ y)))

pub IsPart-append_right : (t s b : Str) → IsPart t s → IsPart t (s ++ b)
unfolding IsPart
IsPart-append_right t s b (x, y, e) = (
  x,
  y ++ b,
  ap (λ l. l ++ b) e ∙ append_assoc x (t ++ y) b ∙ ap (λ l. x ++ l) (append_assoc t y b),
)

pub IsPart-trans : (t s r : Str) → IsPart t s → IsPart s r → IsPart t r
unfolding IsPart
IsPart-trans t s r h (a, b, e) =
    rw e (IsPart-append_left a t (s ++ b) (IsPart-append_right t s b h))

begins-occurs : (t u : Str) → starts_with u t ≡ true → occurs t u ≡ true
unfolding occurs
begins-occurs t [] h = h
begins-occurs t (c ∷ u) h = ground (arith, h)

occurs-behind : (a t s : Str) → occurs t s ≡ true → occurs t (a ++ s) ≡ true
unfolding occurs
occurs-behind [] t s h = h
occurs-behind (c ∷ a) t s h = ground (arith, occurs-behind a t s h)

pub IsPart-occurs : (t s : Str) → IsPart t s → occurs t s ≡ true
unfolding IsPart
IsPart-occurs t s (a, b, e) =
    rw e (occurs-behind a t (t ++ b) (begins-occurs t (t ++ b) (starts_with-append t b)))

starts_with-append_right : (s t r : Str) → starts_with s t ≡ true → starts_with (s ++ r) t ≡ true
unfolding starts_with
starts_with-append_right [] [] r h = unfold starts_with in ground arith
starts_with-append_right [] (d ∷ t) r h = cc
starts_with-append_right (c ∷ s) [] r h = refl
starts_with-append_right (c ∷ s) (d ∷ t) r h = ground (arith, starts_with-append_right s t r)

pub occurs-append : (t s r : Str) → occurs t s ≡ true → occurs t (s ++ r) ≡ true
unfolding occurs
occurs-append t [] r h = begins-occurs t r (starts_with-append_right [] t r h)
occurs-append t (c ∷ s) r h =
    ground (arith, occurs-append t s r, starts_with-append_right (c ∷ s) t r)
