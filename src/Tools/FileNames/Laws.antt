-- ===== src/Tools/FileNames/Laws.antt =====
-- The names that the tests accept, and the file name of a path.
use losys.Base.{
  if◌then◌else◌, ℕ, suc, ◌+◌, true, false, ◌==◌, ==_iff, ==_self, none, some, List, [], ◌∷◌, ◌++◌,
  length, ◌≡◌, ◌↔◌, ◌⊎◌, refl, ap, ◌∙◌, arith, Bool-cases, inl, inr,
}
use losys.Pla.Chars.{IsFreeOf}
use losys.Tools.FileNames.{
  strrchr, rfind, substr, same_text, NameCheck, name_ok, unrecognized, unsupported, check_extension,
  fname_ok, aig_fname_ok, extrac_fname, is_fname_ok,
}

same_text-eq : (xs ys : List ℕ) → same_text xs ys ≡ true → xs ≡ ys
unfolding same_text
same_text-eq [] [] h = refl
same_text-eq [] (y ∷ ys) h = absurd (ground arith)
same_text-eq (x ∷ xs) [] h = absurd (ground arith)
same_text-eq (x ∷ xs) (y ∷ ys) h =
    let e : x ≡ y = ground arith in let es : xs ≡ ys = same_text-eq xs ys (ground arith) in cc

add_one : (n : ℕ) → n + 1 ≡ suc n
add_one n = omega arith

module _ (c : ℕ) where
  -- The text up to the last byte `c`, and the text behind it.
  split_last :
      (text : List ℕ)
      → IsFreeOf c text
        ⊎ ((base : List ℕ) × (behind : List ℕ) × (text ≡ base ++ (c ∷ behind)) × IsFreeOf c behind)
  split_last [] = inl tt
  split_last (x ∷ text) = elim (split_last text) [
    | inr (base, behind, e, free) ↦ inr (x ∷ base, behind, ap (λ t. x ∷ t) e, free)
    | inl free ↦ elim (Bool-cases (x == c)) [
      | inl e ↦ inr ([], text, ap (λ y. y ∷ text) ((==_iff x c).0 e), free)
      | inr e ↦ inl (e, free)
    ]
  ]

  strrchr-free : (text : List ℕ) → IsFreeOf c text → strrchr c text ≡ none
  unfolding strrchr
  strrchr-free [] h = refl
  strrchr-free (x ∷ text) (hx, h) = rw (strrchr-free text h, hx) refl

  rfind-free : (text : List ℕ) → IsFreeOf c text → rfind c text ≡ none
  unfolding rfind
  rfind-free [] h = refl
  rfind-free (x ∷ text) (hx, h) = rw (rfind-free text h, hx) refl

  strrchr-last :
      (base behind : List ℕ)
      → IsFreeOf c behind
      → strrchr c (base ++ (c ∷ behind)) ≡ some (c ∷ behind)
  unfolding strrchr
  strrchr-last [] behind h = rw (strrchr-free behind h, ==_self c) refl
  strrchr-last (x ∷ base) behind h = rw (strrchr-last base behind h) refl

  rfind-last :
      (base behind : List ℕ)
      → IsFreeOf c behind
      → rfind c (base ++ (c ∷ behind)) ≡ some (length base)
  unfolding rfind
  rfind-last [] behind h = rw (rfind-free behind h, ==_self c) refl
  rfind-last (x ∷ base) behind h = rw (rfind-last base behind h) refl

  substr-last : (base behind : List ℕ) → substr (suc (length base)) (base ++ (c ∷ behind)) ≡ behind
  unfolding substr
  substr-last [] behind = refl
  substr-last (x ∷ base) behind = substr-last base behind

-- The test of tools/exorcism/main.cpp accepts exactly the names that end in `.pla`.
pub fname_ok_iff :
    (fname : List ℕ)
    → (fname_ok fname ≡ name_ok)
      ↔ ((base : List ℕ) × (fname ≡ base ++ (b'.' ∷ b'p' ∷ b'l' ∷ b'a' ∷ [])))
unfolding fname_ok check_extension same_text
fname_ok_iff fname = (
  λ h. elim (split_last b'.' fname) [
    | inl free ↦ absurd (ground (arith, strrchr-free b'.' fname free))
    | inr (base, behind, e, free) ↦
        elim (Bool-cases (same_text (b'.' ∷ behind) (b'.' ∷ b'p' ∷ b'l' ∷ b'a' ∷ []))) [
          | inl t ↦ (base, e ∙ ap (λ x. base ++ x) (same_text-eq _ _ t))
          | inr t ↦ absurd (other_name base behind e free t h)
        ]
  ],
  λ (base, e).
      rw (e, strrchr-last b'.' base (b'p' ∷ b'l' ∷ b'a' ∷ []) (refl, (refl, (refl, tt)))) refl,
)
  where
    other_name :
        (base behind : List ℕ)
        → fname ≡ base ++ (b'.' ∷ behind)
        → IsFreeOf b'.' behind
        → same_text (b'.' ∷ behind) (b'.' ∷ b'p' ∷ b'l' ∷ b'a' ∷ []) ≡ false
        → fname_ok fname ≡ name_ok
        → ⊥
    other_name base behind e free t h =
        ground (arith, (rw (e, strrchr-last b'.' base behind free, t) at h))

is_fname_ok-last :
    (base behind : List ℕ)
    → IsFreeOf b'.' behind
    → is_fname_ok (base ++ (b'.' ∷ behind))
      ≡ (if same_text behind (b'a' ∷ b'i' ∷ b'g' ∷ []) then name_ok else unsupported behind)
unfolding is_fname_ok
is_fname_ok-last base behind free =
    rw
      (
        is_fname_ok,
        rfind-last b'.' base behind free,
        add_one (length base),
        substr-last b'.' base behind,
      )
      refl

-- The message of source/main.cpp shows the period too.
abbrev pub with_period : NameCheck → NameCheck
with_period name_ok = name_ok
with_period unrecognized = unrecognized
with_period (unsupported extension) = unsupported (b'.' ∷ extension)

-- The test of source/main.cpp by `strrchr` and `strcmp`, and the one of tools/collapse/main.cpp by
-- `rfind` and `substr`, say the same of every name; the message of the first has the period in it.
pub aig_fname_ok-is_fname_ok :
    (fname : List ℕ) → aig_fname_ok fname ≡ with_period (is_fname_ok fname)
unfolding aig_fname_ok check_extension same_text
aig_fname_ok-is_fname_ok fname = elim (split_last b'.' fname) [
  | inl free ↦ rw (strrchr-free b'.' fname free, no_period free) refl
  | inr (base, behind, e, free) ↦ elim (Bool-cases (same_text behind (b'a' ∷ b'i' ∷ b'g' ∷ []))) [
    | inl t ↦ rw (e, strrchr-last b'.' base behind free, is_fname_ok-last base behind free, t) refl
    | inr t ↦ rw (e, strrchr-last b'.' base behind free, is_fname_ok-last base behind free, t) refl
  ]
]
  where
    no_period : IsFreeOf b'.' fname → is_fname_ok fname ≡ unrecognized
    no_period free = unfold is_fname_ok in rw (is_fname_ok, rfind-free b'.' fname free) refl

extrac_fname-free : (name : List ℕ) → IsFreeOf b'/' name → extrac_fname name ≡ name
unfolding extrac_fname
extrac_fname-free name free = rw (extrac_fname, rfind-free b'/' name free) refl

extrac_fname-last :
    (folder name : List ℕ) → IsFreeOf b'/' name → extrac_fname (folder ++ (b'/' ∷ name)) ≡ name
unfolding extrac_fname
extrac_fname-last folder name free =
    rw (extrac_fname, rfind-last b'/' folder name free, add_one (length folder))
      (substr-last b'/' folder name)

-- The file name of a path is what stands behind its last slash, and the path itself without one.
pub extrac_fname-parts :
    (filepath : List ℕ)
    → IsFreeOf b'/' (extrac_fname filepath)
      × ((filepath ≡ extrac_fname filepath)
          ⊎ ((folder : List ℕ) × (filepath ≡ folder ++ (b'/' ∷ extrac_fname filepath))))
extrac_fname-parts filepath = elim (split_last b'/' filepath) [
  | inl free ↦ rw (extrac_fname-free filepath free) (free, inl refl)
  | inr (folder, name, e, free) ↦
      rw (e, extrac_fname-last folder name free) (free, inr (folder, refl))
]
