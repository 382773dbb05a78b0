-- ===== src/Codegen/Discover/Patterns.antt =====
-- matchPathPattern of packages/codegen/src/discover.ts decides whether a path can be cut into pieces that
-- the segments of the pattern stand for.
use mathlib.Core.Bool.{false≢true}
use mathlib.Core.List.{nil≢cons}
use effect_opcua.Prelude.{
  String, List, [], ◌∷◌, ◌++◌, Bool, true, ◌≡◌, ◌↔◌, inl, inr, refl, sym, ap, subst, ◌∙◌, arith,
  eq_iff, Bool-cases,
}
use effect_opcua.Codegen.Discover.{
  PathPatternSegment, any_segments, text_segment, reg_exp, skip_segments, match_one, match_segment,
  match_path_pattern,
}

-- "**" stands for any piece of a path, a text for itself, and a RegExp for one segment that it accepts.
abbrev pub StandsFor : PathPatternSegment → List String → Type 0
StandsFor any_segments piece = Unit
StandsFor (text_segment text) piece = piece ≡ text ∷ []
StandsFor (reg_exp test) piece = (segment : String) × (piece ≡ segment ∷ []) × (test segment ≡ true)

-- The path is made of one piece for each segment of the pattern, in order.
abbrev pub IsMadeOf : List PathPatternSegment → List String → Type 0
IsMadeOf [] path = path ≡ []
IsMadeOf (segment ∷ pattern) path =
    (piece rest : List String) × (path ≡ piece ++ rest)
    × StandsFor segment piece
    × IsMadeOf pattern rest

-- Skipping finds a rest exactly if there is one.
skip_segments-true :
    (f : List String → Bool) (path : List String)
    → skip_segments f path ≡ true
    → (piece rest : List String) × (path ≡ piece ++ rest) × (f rest ≡ true)
unfolding skip_segments
skip_segments-true f [] h = ([], [], refl, h)
skip_segments-true f (x ∷ path) h = elim (Bool-cases (f (x ∷ path))) [
  | inl here ↦ ([], x ∷ path, refl, here)
  | inr other ↦
      let (piece, rest, e, found) = skip_segments-true f path (ground arith) in
      (x ∷ piece, rest, ap (λ l. x ∷ l) e, found)
]

skip_segments-of :
    (f : List String → Bool) (piece rest : List String)
    → f rest ≡ true
    → skip_segments f (piece ++ rest) ≡ true
unfolding skip_segments
skip_segments-of f [] [] h = h
skip_segments-of f [] (x ∷ rest) h = ground arith
skip_segments-of f (x ∷ piece) rest h = ground (arith, skip_segments-of f piece rest h)

no_piece : (y : String) (piece rest : List String) → [] ≡ piece ++ rest → piece ≡ y ∷ [] → ⊥
no_piece y piece rest e s =
    let all : [] ≡ y ∷ rest = e ∙ ap (λ p. p ++ rest) s in absurd (nil≢cons all)

one_piece :
    (x y : String) (path piece rest : List String)
    → x ∷ path ≡ piece ++ rest
    → piece ≡ y ∷ []
    → (x ≡ y) × (path ≡ rest)
one_piece x y path piece rest e s =
    let all : x ∷ path ≡ y ∷ rest = e ∙ ap (λ p. p ++ rest) s in (cc, cc)

module _ (f : List String → Bool) (Rest : List String → Type 0)
    (agree : (path : List String) → (f path ≡ true) ↔ Rest path) where
  match_segment_iff :
      (segment : PathPatternSegment) (path : List String)
      → (match_segment segment f path ≡ true) ↔ (
          (piece rest : List String) × (path ≡ piece ++ rest) × StandsFor segment piece × Rest rest)
  unfolding match_segment match_one
  match_segment_iff any_segments path = (
    λ h.
        (let (piece, rest, e, found) = skip_segments-true f path h in
          (piece, rest, e, tt, (agree rest).0 found)),
    λ (piece, rest, e, _, r).
        subst (λ l. skip_segments f l ≡ true) (sym e)
          (skip_segments-of f piece rest ((agree rest).1 r)),
  )
  match_segment_iff (text_segment text) [] =
      (λ h. absurd (false≢true h), λ (piece, rest, e, s, r). absurd (no_piece text piece rest e s))
  match_segment_iff (text_segment text) (x ∷ path) = (
    λ h. (
      x ∷ [],
      path,
      refl,
      ap (λ y. y ∷ []) (sym ((eq_iff text x).0 (ground arith))),
      (agree path).0 (ground arith),
    ),
    λ (piece, rest, e, s, r).
        let (same, left) = one_piece x text path piece rest e s in
        let found = (agree path).1 (subst Rest (sym left) r) in
        let equal = (eq_iff text x).1 (sym same) in ground arith,
  )
  match_segment_iff (reg_exp test) [] = (
    λ h. absurd (false≢true h),
    λ (piece, rest, e, (y, s, t), r). absurd (no_piece y piece rest e s),
  )
  match_segment_iff (reg_exp test) (x ∷ path) = (
    λ h. (x ∷ [], path, refl, (x, refl, ground arith), (agree path).0 (ground arith)),
    λ (piece, rest, e, (y, s, t), r).
        let (same, left) = one_piece x y path piece rest e s in
        let found = (agree path).1 (subst Rest (sym left) r) in
        let accepted : test x ≡ true = subst (λ z. test z ≡ true) (sym same) t in ground arith,
  )

-- matchPathPattern accepts a path exactly if the path can be cut into one piece for each segment of the
-- pattern: any piece for "**", the text itself for a text, and one segment that the RegExp accepts for a
-- RegExp.
pub match_path_pattern_iff :
    (pattern : List PathPatternSegment) (path : List String)
    → (match_path_pattern pattern path ≡ true) ↔ IsMadeOf pattern path
unfolding match_path_pattern
match_path_pattern_iff [] [] = (λ h. refl, λ e. refl)
match_path_pattern_iff [] (x ∷ path) = (λ h. absurd (false≢true h), λ e. cc)
match_path_pattern_iff (segment ∷ pattern) path =
    match_segment_iff (match_path_pattern pattern) (IsMadeOf pattern)
      (match_path_pattern_iff pattern) segment path
