-- ===== src/Trials/File/Lines.antt =====
-- Lines that are appended to a file, and the parts of a line.
use pony.Prelude.{
  ℕ, ◌≡◌, refl, ap, sym, ◌∙◌, Bool, true, false, ◌&&◌, ◌||◌, List, [], ◌∷◌, ◌++◌, arith, nat_eqb,
  All, Bool-cases, inl, inr,
}
use pony.Prelude.Text.{Text}
use pony.Trials.File.{starts_with_lf, push_char, next_lines, split_commas}

-- A file that is empty or ends with LF.
abbrev pub ends_with_lf : Text → Bool
ends_with_lf [] = true
ends_with_lf (c ∷ []) = nat_eqb c 10
ends_with_lf (c ∷ d ∷ s) = ends_with_lf (d ∷ s)

-- Text without LF and CR.
abbrev pub IsUnbroken : Text → Type 0
IsUnbroken s = All (λ c. (nat_eqb c 10 || nat_eqb c 13) ≡ false) s

abbrev pub HasNoComma : Text → Type 0
HasNoComma s = All (λ c. nat_eqb c b',' ≡ false) s

-- The three cases of a step.
next_lines_lf : (c : ℕ) (s : Text) → nat_eqb c 10 ≡ true → next_lines (c ∷ s) ≡ [] ∷ next_lines s
unfolding next_lines
next_lines_lf c s h = rw (next_lines, h) refl

next_lines_cr :
    (c : ℕ) (s : Text)
    → nat_eqb c 10 ≡ false
    → (nat_eqb c 13 && starts_with_lf s) ≡ true
    → next_lines (c ∷ s) ≡ next_lines s
unfolding next_lines
next_lines_cr c s h k = rw (next_lines, h, k) refl

next_lines_char :
    (c : ℕ) (s : Text)
    → nat_eqb c 10 ≡ false
    → (nat_eqb c 13 && starts_with_lf s) ≡ false
    → next_lines (c ∷ s) ≡ push_char c (next_lines s)
unfolding next_lines
next_lines_char c s h k = rw (next_lines, h, k) refl

next_lines_nil : next_lines [] ≡ []
unfolding next_lines
next_lines_nil = refl

next_lines_cons :
    (c : ℕ) (s : Text) → (line : Text) × (lines : List Text) × (next_lines (c ∷ s) ≡ line ∷ lines)
next_lines_cons c [] = elim (Bool-cases (nat_eqb c 10)) [
  | inl lf ↦ ([], next_lines [], next_lines_lf c [] lf)
  | inr other ↦
      (c ∷ [], [], next_lines_char c [] other (ground arith) ∙ ap (push_char c) next_lines_nil)
]
next_lines_cons c (d ∷ s) =
    let (line, lines, e) = next_lines_cons d s in
    elim (Bool-cases (nat_eqb c 10)) [
      | inl lf ↦ ([], next_lines (d ∷ s), next_lines_lf c (d ∷ s) lf)
      | inr other ↦ elim (Bool-cases (nat_eqb c 13 && starts_with_lf (d ∷ s))) [
        | inl cr ↦ (line, lines, next_lines_cr c (d ∷ s) other cr ∙ e)
        | inr more ↦ (c ∷ line, lines, next_lines_char c (d ∷ s) other more ∙ ap (push_char c) e)
      ]
    ]

push_char-append :
    (c d : ℕ) (s : Text) (lines : List Text)
    → push_char c (next_lines (d ∷ s) ++ lines) ≡ push_char c (next_lines (d ∷ s)) ++ lines
push_char-append c d s lines = let (l, ls, e) = next_lines_cons d s in rw e refl

pub next_lines-append :
    (s u : Text) → ends_with_lf s ≡ true → next_lines (s ++ u) ≡ next_lines s ++ next_lines u
next_lines-append [] u h = rw next_lines_nil refl
next_lines-append (c ∷ []) u h = rw (next_lines_lf c u h, next_lines_lf c [] h, next_lines_nil) refl
next_lines-append (c ∷ d ∷ s) u h =
    let rest = next_lines-append (d ∷ s) u h in
    elim (Bool-cases (nat_eqb c 10)) [
      | inl lf ↦
          next_lines_lf c (d ∷ s ++ u) lf
          ∙ ap (◌∷◌ []) rest
          ∙ sym (ap (λ l. l ++ next_lines u) (next_lines_lf c (d ∷ s) lf))
      | inr other ↦ elim (Bool-cases (nat_eqb c 13 && starts_with_lf (d ∷ s))) [
        | inl cr ↦
            next_lines_cr c (d ∷ s ++ u) other cr
            ∙ rest
            ∙ sym (ap (λ l. l ++ next_lines u) (next_lines_cr c (d ∷ s) other cr))
        | inr more ↦
            next_lines_char c (d ∷ s ++ u) other more
            ∙ ap (push_char c) rest
            ∙ push_char-append c d s (next_lines u)
            ∙ sym (ap (λ l. l ++ next_lines u) (next_lines_char c (d ∷ s) other more))
      ]
    ]

pub next_lines-unbroken : (s : Text) → IsUnbroken s → next_lines (s ++ 10 ∷ []) ≡ s ∷ []
next_lines-unbroken [] p = next_lines_lf 10 [] refl ∙ ap (◌∷◌ []) next_lines_nil
next_lines-unbroken (c ∷ s) p =
    next_lines_char c (s ++ 10 ∷ []) (ground (arith, p.0)) (ground (arith, p.0))
    ∙ ap (push_char c) (next_lines-unbroken s p.1)

pub split_commas-append :
    (s u : Text) → HasNoComma s → split_commas (s ++ b',' ∷ u) ≡ s ∷ split_commas u
unfolding split_commas
split_commas-append [] u p = refl
split_commas-append (c ∷ s) u p = let rest = split_commas-append s u p.1 in rw (p.0, rest) refl
