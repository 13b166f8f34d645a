-- ===== src/Server/Callbacks/Heading.antt =====
-- The heading of a service in the callbacks' skeleton is skipped as well.
use mathlib.Core.Bool.{true, false, ◌||◌}
use windrpc.Base.{
  ℕ, ◌≡◌, refl, ap, ◌∙◌, sym, none, [], ◌∷◌, ◌++◌, append_assoc, arith, ◌==◌, Bool-cases, inl, inr,
}
use windrpc.Base.Text.{Str, codes, str_eq, starts_with, join, extend}
use windrpc.Base.Pieces.{is_space, strip, lstrip, rstrip, unless_blank, newline, lines, pieces}
use windrpc.Server.Merge.{key_token, is_header, is_declaration, sig_line, is_comment}
use windrpc.Server.Callbacks.{ruler, service_heading}
use windrpc.Server.Callbacks.Plain.{plain-around}
use windrpc.Server.Callbacks.Handlers.{Skipped}
use windrpc.Server.Callbacks.Paragraphs.{plain, is_line, joined}

rstrip-append : (s t : Str) (c : ℕ) (u : Str) → rstrip t ≡ c ∷ u → rstrip (s ++ t) ≡ s ++ c ∷ u
unfolding rstrip
rstrip-append [] t c u e = e
rstrip-append (d ∷ s) t c u e = rw (rstrip-append s t c u e) (kept s)
  where
    kept : (s : Str) → unless_blank d (s ++ c ∷ u) ≡ d ∷ (s ++ c ∷ u)
    kept [] = unfold unless_blank in refl
    kept (x ∷ s) = unfold unless_blank in refl

lines-append : (l t : Str) → plain l ≡ true → lines (l ++ newline ∷ t) ≡ l ∷ lines t
unfolding lines pieces plain extend
lines-append [] t h = refl
lines-append (c ∷ l) t h =
    let other : (c == newline) ≡ false = ground arith in
    rw (other, lines-append l t (ground arith)) refl

lines-plain : (l : Str) → plain l ≡ true → lines l ≡ l ∷ []
unfolding lines pieces plain extend
lines-plain [] h = refl
lines-plain (c ∷ l) h =
    let other : (c == newline) ≡ false = ground arith in
    rw (other, lines-plain l (ground arith)) refl

is_comment_begin : (s : Str) → is_comment (codes "/*" ++ s) ≡ true
unfolding is_comment strip is_space starts_with
is_comment_begin s = begins (rstrip s)
  where
    begins :
        (t : Str)
        → (starts_with (unless_blank b'/' (unless_blank b'*' t)) (codes "/*")
            || starts_with (unless_blank b'/' (unless_blank b'*' t)) (codes "*")
            || starts_with (unless_blank b'/' (unless_blank b'*' t)) (codes "//"))
          ≡ true
    begins [] = refl
    begins (c ∷ t) = refl

three_lines :
    (x y z : Str)
    → plain x ≡ true
    → plain y ≡ true
    → plain z ≡ true
    → lines (x ++ newline ∷ (y ++ newline ∷ z)) ≡ x ∷ y ∷ z ∷ []
three_lines x y z hx hy hz =
    lines-append x (y ++ newline ∷ z) hx
    ∙ ap (λ ls. x ∷ ls) (lines-append y z hy ∙ ap (λ ls. y ∷ ls) (lines-plain z hz))

joined-three : (x y z : Str) → joined (x ∷ y ∷ z ∷ []) ≡ x ++ newline ∷ (y ++ newline ∷ z)
unfolding join
joined-three x y z =
    append_assoc x (newline ∷ []) (y ++ newline ∷ [] ++ z)
    ∙ ap (λ t. x ++ newline ∷ t) (append_assoc y (newline ∷ []) z)

ruler_stripped : rstrip ruler ≡ ruler
unfolding ruler rstrip is_space
ruler_stripped = refl

-- nothing is taken off a text between two rulers
strip-rulers : (t : Str) → strip (ruler ++ (t ++ ruler)) ≡ ruler ++ (t ++ ruler)
strip-rulers t =
    unfold strip lstrip ruler is_space in
    (ap (λ s. rstrip s) (sym (append_assoc ruler t ruler))
      ∙ rstrip-append (ruler ++ t) ruler _ _ ruler_stripped
      ∙ append_assoc ruler t ruler)

sig_line-three :
    (x y z : Str)
    → is_comment x ≡ true
    → is_comment y ≡ true
    → is_comment z ≡ true
    → sig_line (x ∷ y ∷ z ∷ []) ≡ []
unfolding sig_line
sig_line-three x y z hx hy hz = rw (hx, hy, hz) refl

ruler-plain : plain ruler ≡ true
unfolding ruler plain
ruler-plain = refl

ruler_comment : is_comment ruler ≡ true
unfolding ruler is_comment strip is_space starts_with
ruler_comment = refl

-- a comment between two rulers has no key
key_token-rulers :
    (y : Str)
    → plain y ≡ true
    → is_comment y ≡ true
    → key_token (joined (ruler ∷ y ∷ ruler ∷ [])) ≡ none
key_token-rulers y hy comment =
    let text : Str = ruler ++ newline ∷ (y ++ newline ∷ ruler) in
    let t : Str = newline ∷ (y ++ newline ∷ []) in
    let same : ruler ++ (t ++ ruler) ≡ text =
      ap (λ u. ruler ++ newline ∷ u) (append_assoc y (newline ∷ []) ruler) in
    let kept : strip (ruler ++ (t ++ ruler)) ≡ ruler ++ (t ++ ruler) = strip-rulers t in
    let stripped : strip text ≡ text = (rw same at kept) in
    let sig : sig_line (lines (strip text)) ≡ [] =
      rw (stripped, three_lines ruler y ruler ruler-plain hy ruler-plain)
        (sig_line-three ruler y ruler ruler_comment comment ruler_comment) in
    rw (joined-three ruler y ruler) (no_key text sig)
  where
    no_key : (text : Str) → sig_line (lines (strip text)) ≡ [] → key_token text ≡ none
    no_key text sig = elim (Bool-cases (is_header (strip text))) [
      | inl header ↦ unfold key_token in rw header refl
      | inr other ↦ unfold key_token is_declaration str_eq in rw (sig, other) refl
    ]

pub service_heading-Skipped :
    (svc_name : Str) → plain svc_name ≡ true → Skipped (service_heading svc_name)
service_heading-Skipped svc_name h =
    let before : Str = codes "/*                             Service: " in
    let behind : Str = codes "                           */" in
    let middle : plain (before ++ svc_name ++ behind) ≡ true =
      plain-around before svc_name behind (unfold plain in refl) h (unfold plain in refl) in
    unfold service_heading is_line in
    (
      (ruler_line, (middle, (ruler_line, tt))),
      key_token-rulers (before ++ svc_name ++ behind) middle (is_comment_begin _),
    )
  where
    ruler_line : is_line ruler ≡ true
    ruler_line = unfold is_line ruler plain in refl
