-- ===== src/Main/Arguments.antt =====
-- controller/cmd/main.c, `parse_args`: which arguments turn the verbose log on.
use mathlib.Core.List.{Memᴰ}
use mathlib.Core.List.Memᴰ
use segling.Prelude.{
  ℕ, ◌≡◌, ◌⊎◌, inl, inr, refl, ap, subst, ◌∙◌, Bool, true, false, Bool-cases, ◌||◌, List, [], ◌∷◌,
  arith,
}
use segling.Logging.{log_level_debug}
use segling.Main.{same_text, verbose_short, verbose_long, parse_args}

-- The comparison finds equal texts, and no others.
same_text_sound : (xs ys : List ℕ) → same_text xs ys ≡ true → xs ≡ ys
unfolding same_text
same_text_sound [] [] h = refl
same_text_sound [] (y ∷ ys) h = absurd (cc h)
same_text_sound (x ∷ xs) [] h = absurd (cc h)
same_text_sound (x ∷ xs) (y ∷ ys) h =
    let both : (x ≡ y) × (same_text xs ys ≡ true) = ground arith in
    ap (λ z. z ∷ xs) both.0 ∙ ap (λ zs. y ∷ zs) (same_text_sound xs ys both.1)

same_text_self : (xs : List ℕ) → same_text xs xs ≡ true
unfolding same_text
same_text_self [] = refl
same_text_self (x ∷ xs) = ground (arith, same_text_self xs)

abbrev pub IsVerbose : List ℕ → Type 0
IsVerbose arg = (arg ≡ verbose_short) ⊎ (arg ≡ verbose_long)

asks : List ℕ → Bool
asks arg = same_text arg verbose_short || same_text arg verbose_long

asks-IsVerbose : (arg : List ℕ) → asks arg ≡ true → IsVerbose arg
unfolding asks
asks-IsVerbose arg h = elim (Bool-cases (same_text arg verbose_short)) [
  | inl short ↦ inl (same_text_sound arg verbose_short short)
  | inr other ↦ inr (same_text_sound arg verbose_long (ground arith))
]

IsVerbose-asks : (arg : List ℕ) → IsVerbose arg → asks arg ≡ true
unfolding asks
IsVerbose-asks arg (inl e) =
    let found = ap (λ a. same_text a verbose_short) e ∙ same_text_self verbose_short in ground arith
IsVerbose-asks arg (inr e) =
    let found = ap (λ a. same_text a verbose_long) e ∙ same_text_self verbose_long in ground arith

-- A level once set to debug stays so.
parse_args-debug : (args : List (List ℕ)) → parse_args args log_level_debug ≡ log_level_debug
unfolding parse_args
parse_args-debug [] = refl
parse_args-debug (arg ∷ args) =
    elim (Bool-cases (same_text arg verbose_short || same_text arg verbose_long)) [
      | inl on ↦ rw on (parse_args-debug args)
      | inr off ↦ rw off (parse_args-debug args)
    ]

-- One of the arguments is `-v` or `--verbose`.
abbrev pub Asked : List (List ℕ) → Type 0
Asked args = (arg : List ℕ) × Memᴰ arg args × IsVerbose arg

not-Asked-cons :
    (arg : List ℕ) (args : List (List ℕ))
    → asks arg ≡ false
    → (Asked args → ⊥)
    → Asked (arg ∷ args)
    → ⊥
not-Asked-cons arg args off rest (a, Memᴰ.head e, verbose) =
    absurd (cc (off, IsVerbose-asks arg (subst IsVerbose e verbose)))
not-Asked-cons arg args off rest (a, Memᴰ.tail m, verbose) = rest (a, m, verbose)

-- The level is debug where one of the arguments is `-v` or `--verbose`, in any place and whatever the
-- others are, and else it is what it was.
pub parse_args_lem :
    (args : List (List ℕ)) (level : ℕ)
    → (Asked args × (parse_args args level ≡ log_level_debug))
      ⊎ ((Asked args → ⊥) × (parse_args args level ≡ level))
unfolding parse_args asks
parse_args_lem [] level = inr (λ asked. Memᴰ.not-nil asked.1, refl)
parse_args_lem (arg ∷ args) level = elim (Bool-cases (asks arg)) [
  | inl on ↦ inl ((arg, Memᴰ.head refl, asks-IsVerbose arg on), rw on (parse_args-debug args))
  | inr off ↦ elim (parse_args_lem args level) [
    | inl ((a, m, verbose), debug) ↦ inl ((a, Memᴰ.tail m, verbose), rw off debug)
    | inr (none_asked, kept) ↦ inr (not-Asked-cons arg args off none_asked, rw off kept)
  ]
]
