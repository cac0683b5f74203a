-- ===== src/Base/Text.antt =====
-- Python's text operations over lists of code points: `strip`, `find`, `startswith`, `join` and
-- `split("\n\n")`, with the white space of `str.isspace`.
use Prim.Native.Char.{code}
use Prim.Native.String.{String}
use Prim.Native.Nat.{ℕ, suc}
use mathlib.Core.Path.{◌≡◌, refl}
use mathlib.Core.Logic.{inl, inr}
use mathlib.Core.Bool.{Bool, true, false, ◌&&◌, ◌||◌}
use mathlib.Core.List.{List, [], ◌∷◌, ◌++◌}
use mathlib.Core.Option.{Option, none, some}
use rag_kb.Base.Tests.{leb, nat_beq, if◌then◌else◌, nat_beq_iff, Bool-cases, &&-eq-true}
use rag_kb.Base.Lists.{is_empty}

abbrev pub Text : Type 0
Text = List ℕ

abbrev pub codes : String → Text
codes String.[] = []
codes (String.◌∷◌ c s) = code c ∷ codes s

-- The code points for which `str.isspace` holds.
unfoldable pub is_space : ℕ → Bool
is_space c =
    (leb 9 c && leb c 13)
    || (leb 28 c && leb c 32)
    || nat_beq c 0x85
    || nat_beq c 0xA0
    || nat_beq c 0x1680
    || (leb 0x2000 c && leb c 0x200A)
    || nat_beq c 0x2028
    || nat_beq c 0x2029
    || nat_beq c 0x202F
    || nat_beq c 0x205F
    || nat_beq c 0x3000

unfoldable pub lstrip : Text → Text
unfolding is_space
lstrip [] = []
lstrip (c ∷ cs) = elim (is_space c) [ true ↦ lstrip cs | false ↦ c ∷ cs ]

unfoldable pub rstrip : Text → Text
unfolding is_space
rstrip [] = []
rstrip (c ∷ cs) = let rest = rstrip cs in if is_space c && is_empty rest then [] else c ∷ rest

unfoldable pub strip : Text → Text
unfolding lstrip rstrip
strip t = rstrip (lstrip t)

unfoldable pub starts_with : Text → Text → Bool
starts_with [] t = true
starts_with (p ∷ ps) [] = false
starts_with (p ∷ ps) (c ∷ cs) = nat_beq p c && starts_with ps cs

-- `hay.find(needle)`, with `none` for -1.
unfoldable pub find : Text → Text → Option ℕ
unfolding starts_with
find needle [] = if is_empty needle then some 0 else none
find needle (c ∷ cs) =
    let later = find needle cs in
    if starts_with needle (c ∷ cs)
    then some 0
    else elim later [ none ↦ none | some i ↦ some (suc i) ]

-- `find`, with -1 read as 0, as `max(start, 0)` does.
unfoldable pub find_or_zero : Text → Text → ℕ
unfolding find
find_or_zero needle hay = elim (find needle hay) [ none ↦ 0 | some i ↦ i ]

unfoldable pub join : Text → List Text → Text
join sep [] = []
join sep (p ∷ []) = p
join sep (p ∷ q ∷ ps) = p ++ (sep ++ join sep (q ∷ ps))

-- One more character before the first part.
abbrev pub cons_head : ℕ → List Text → List Text
cons_head c [] = (c ∷ []) ∷ []
cons_head c (w ∷ ws) = (c ∷ w) ∷ ws

abbrev pub blank_line : Text
blank_line = 10 ∷ 10 ∷ []

-- `text.split("\n\n")`
unfoldable pub split_blank : Text → List Text
split_blank [] = [] ∷ []
split_blank (c ∷ []) = (c ∷ []) ∷ []
split_blank (c ∷ d ∷ cs) = elim (nat_beq c 10 && nat_beq d 10) [
  | true ↦ [] ∷ split_blank cs
  | false ↦ cons_head c (split_blank (d ∷ cs))
]

join-cons_head :
    (c : ℕ) (ps : List Text) → join blank_line (cons_head c ps) ≡ c ∷ join blank_line ps
unfolding join
join-cons_head c [] = refl
join-cons_head c (p ∷ []) = refl
join-cons_head c (p ∷ q ∷ ps) = refl

data Parts : List Text → Type 0 where
  parts : (p : Text) (ps : List Text) → Parts (p ∷ ps)

cons_head-Parts : (c : ℕ) (ps : List Text) → Parts (cons_head c ps)
cons_head-Parts c [] = parts (c ∷ []) []
cons_head-Parts c (w ∷ ws) = parts (c ∷ w) ws

split_blank-Parts : (t : Text) → Parts (split_blank t)
unfolding split_blank
split_blank-Parts [] = parts [] []
split_blank-Parts (c ∷ []) = parts (c ∷ []) []
split_blank-Parts (c ∷ d ∷ cs) =
    elim (nat_beq c 10 && nat_beq d 10)
      as (λ b.
        Parts
          (elim b [ true ↦ [] ∷ split_blank cs | false ↦ cons_head c (split_blank (d ∷ cs)) ])) [
            | true ↦ parts [] (split_blank cs)
            | false ↦ cons_head-Parts c (split_blank (d ∷ cs))
          ]

join-nil_head :
    (ps : List Text) → Parts ps → join blank_line ([] ∷ ps) ≡ 10 ∷ 10 ∷ join blank_line ps
unfolding join
join-nil_head _ (parts p ps) = refl

-- Joining the paragraphs gives the text back.
pub join-split_blank : (t : Text) → join blank_line (split_blank t) ≡ t
unfolding split_blank
join-split_blank [] = unfold join in refl
join-split_blank (c ∷ []) = unfold join in refl
join-split_blank (c ∷ d ∷ cs) = elim (Bool-cases (nat_beq c 10 && nat_beq d 10)) [
  | inl e ↦
      let (ec, ed) = &&-eq-true (nat_beq c 10) (nat_beq d 10) e in
      rw (e, split_blank)
        (cc (
          join-nil_head (split_blank cs) (split_blank-Parts cs),
          join-split_blank cs,
          (nat_beq_iff c 10).0 ec,
          (nat_beq_iff d 10).0 ed,
        ))
  | inr e ↦
      rw (e, split_blank) (cc (join-cons_head c (split_blank (d ∷ cs)), join-split_blank (d ∷ cs)))
]
