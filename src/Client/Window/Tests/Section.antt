-- ===== src/Client/Window/Tests/Section.antt =====
-- A function with the law of `QString::section(sep, 0, 0)`.
use Prim.Native.Nat.{◌≤◌}
use Prim.Native.Char.{Char, code}
use Prim.Native.String.{String, [], ◌∷◌, ◌++◌, count}
use mathlib.Core.Path.{◌≡◌, refl, sym, ap, ◌∙◌}
use mathlib.Core.Logic.{◌≢◌, inl, inr}
use mathlib.Core.Option.{Option, none, some}
use native.Mathlib.Omega.{arith}
use text.Mathlib.TextLemmas.{
  append-nil, append_assoc, append_cancel_left, cons-append, nil-append, length-append, length-cons,
  length-nil, head-eq_of_cons-eq, tail-eq_of_cons-eq,
}
use text.Mathlib.TextEquality.{Char-path}
use mathlib.Core.Bool.{true}
use simple_chat_protocol.Prelude.{◌==◌, ==_iff, Option-cases, Bool-cases, if◌then◌else◌}
use simple_chat_protocol.Client.Qt.{Precedes}

-- What follows `sep` in a text that begins with it.
strip : String → String → Option String
strip [] s = some s
strip (c ∷ sep) [] = none
strip (c ∷ sep) (d ∷ s) = let rest = strip sep s in if code c == code d then rest else none

pub front : String → String → String
front [] sep = []
front (c ∷ s) sep =
    let rest = front s sep in elim (strip sep (c ∷ s)) [ none ↦ c ∷ rest | some _ ↦ [] ]

strip-nil : (s : String) → strip [] s ≡ some s
unfolding strip
strip-nil s = refl

strip-same :
    (c d : Char) (sep s : String)
    → (code c == code d) ≡ true
    → strip (c ∷ sep) (d ∷ s) ≡ strip sep s
unfolding strip
strip-same c d sep s e = rw (e) refl

strip-cons :
    (c d : Char) (sep s v : String)
    → strip (c ∷ sep) (d ∷ s) ≡ some v
    → (c ≡ d) × (strip sep s ≡ some v)
unfolding strip
strip-cons c d sep s v e = elim (Bool-cases (code c == code d)) [
  | inl same ↦ (Char-path c d ((==_iff (code c) (code d)).0 same), ground (arith, e, same))
  | inr other ↦ absurd (ground (arith, e, other))
]

strip-append : (sep b : String) → strip sep (sep ++ b) ≡ some b
strip-append [] b = strip-nil ([] ++ b) ∙ ap some (nil-append b)
strip-append (c ∷ sep) b =
    ap (strip (c ∷ sep)) (cons-append c sep b)
    ∙ strip-same c c sep (sep ++ b) ((==_iff (code c) (code c)).1 refl)
    ∙ strip-append sep b

-- A separator in front of a text that begins with a longer one is in front of that.
strip-front :
    (sep x b r : String)
    → strip sep (x ++ b) ≡ some r
    → count sep ≤ count x
    → (v : String) × (x ≡ sep ++ v)
unfolding strip
strip-front [] x b r e h = (x, sym (nil-append x))
strip-front (c ∷ sep) [] b r e h = absurd (omega (arith, h, length-cons c sep, length-nil))
strip-front (c ∷ sep) (d ∷ x) b r e h =
    let (same, later) =
      strip-cons c d sep (x ++ b) r (ap (strip (c ∷ sep)) (sym (cons-append d x b)) ∙ e) in
    let (v, shape) =
      strip-front sep x b r later (omega (arith, h, length-cons c sep, length-cons d x)) in
    (v, ap (λ k. k ∷ x) (sym same) ∙ ap (◌∷◌ c) shape ∙ sym (cons-append c sep v))

front-found : (s sep v : String) → strip sep s ≡ some v → front s sep ≡ []
unfolding front
front-found [] sep v e = refl
front-found (c ∷ s) sep v e = rw (e, front) refl

front-missing :
    (c : Char) (s sep : String) → strip sep (c ∷ s) ≡ none → front (c ∷ s) sep ≡ c ∷ front s sep
unfolding front
front-missing c s sep e = rw (e, front) refl

Precedes-cons : (c : Char) (a sep : String) → Precedes (c ∷ a) sep → Precedes a sep
Precedes-cons c a sep h u v e =
    h (c ∷ u) v (cons-append c a sep ∙ ap (◌∷◌ c) e ∙ sym (cons-append c u (sep ++ v)))

pub front-append : (a sep b : String) → Precedes a sep → front (a ++ sep ++ b) sep ≡ a
front-append [] sep b h =
    ap (λ s. front s sep) (nil-append (sep ++ b))
    ∙ front-found (sep ++ b) sep b (strip-append sep b)
front-append (c ∷ a) sep b h = elim (Option-cases (strip sep (c ∷ (a ++ (sep ++ b))))) [
  | inl missing ↦
      ap (λ s. front s sep) (cons-append c a (sep ++ b))
      ∙ front-missing c (a ++ (sep ++ b)) sep missing
      ∙ ap (◌∷◌ c) (front-append a sep b (Precedes-cons c a sep h))
  | inr (r, found) ↦
      let whole : ((c ∷ a) ++ sep) ++ b ≡ c ∷ (a ++ (sep ++ b)) =
        append_assoc (c ∷ a) sep b ∙ cons-append c a (sep ++ b) in
      let lengths = length-append (c ∷ a) sep in
      let (v, shape) =
        strip-front sep ((c ∷ a) ++ sep) b r (ap (strip sep) whole ∙ found)
          (omega (arith, lengths)) in
      let ends : v ≡ [] = h [] v (shape ∙ sym (nil-append (sep ++ v))) in
      let short = ap count (shape ∙ ap (λ t. sep ++ t) ends ∙ append-nil sep) in
      absurd (omega (arith, lengths, short, length-cons c a))
]

-- No character of the text is the given one.
abbrev pub Lacks : Char → String → Type 0
Lacks b [] = Unit
Lacks b (c ∷ a) = (c ≢ b) × Lacks b a

pub Lacks-Precedes : (b : Char) (a sep : String) → Lacks b a → Precedes a (b ∷ sep)
Lacks-Precedes b [] sep h [] v e = sym (
    append_cancel_left (b ∷ sep) [] v
      (append-nil (b ∷ sep) ∙ sym (nil-append (b ∷ sep)) ∙ e ∙ nil-append ((b ∷ sep) ++ v)))
Lacks-Precedes b [] sep h (d ∷ u) v e = absurd (
    omega (
      arith,
      ap count (sym (nil-append (b ∷ sep)) ∙ e),
      length-append (d ∷ u) ((b ∷ sep) ++ v),
      length-append (b ∷ sep) v,
      length-cons d u,
    ))
Lacks-Precedes b (c ∷ a) sep h [] v e = absurd (
    h.0 (
      head-eq_of_cons-eq
        (sym (cons-append c a (b ∷ sep)) ∙ e ∙ nil-append ((b ∷ sep) ++ v) ∙ cons-append b sep v)))
Lacks-Precedes b (c ∷ a) sep h (d ∷ u) v e =
    Lacks-Precedes b a sep h.1 u v
      (tail-eq_of_cons-eq (sym (cons-append c a (b ∷ sep)) ∙ e ∙ cons-append d u ((b ∷ sep) ++ v)))
