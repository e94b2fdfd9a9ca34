-- ===== src/Tools/Exorcism/CommandLine.antt =====
-- When the command line of tools/exorcism/main.cpp leads to a run, and what else it leads to.
use losys.Base.{
  ℕ, ◌+◌, Bool, true, false, ◌||◌, ◌==◌, ==_iff, if◌then◌else◌, none, some, List, [], ◌∷◌, length,
  get_or, ◌≡◌, ◌≢◌, ◌↔◌, refl, sym, arith, Bool-cases, inl, inr,
}
use losys.Tools.FileNames.{NameCheck, name_ok, unrecognized, unsupported, fname_ok}
use losys.Tools.Exorcism.{
  GetOpt, Flags, read_opts, Command, run_on, guard_name, read_names, command_line,
}

abbrev pub has : ℕ → List ℕ → Bool
has c [] = false
has c (opt ∷ opts) = opt == c || has c opts

abbrev pub flags_of : Bool → Bool → Flags
flags_of v w = record { verbose = v; werbose = w }

-- The flags are the options that occur, and the help option takes the place of everything.
read_opts-has :
    (opts : List ℕ) (v w : Bool)
    → read_opts opts (flags_of v w)
      ≡ (if has b'h' opts then none else some (flags_of (v || has b'v' opts) (w || has b'w' opts)))
unfolding read_opts
read_opts-has [] v w = ground arith
read_opts-has (opt ∷ opts) v w = elim (Bool-cases (opt == b'h')) [
  | inl e ↦ rw e refl
  | inr e ↦ elim (Bool-cases (opt == b'v')) [
    | inl u ↦
        let x : (opt == b'w') ≡ false = ground arith in
        rw (e, u, x, read_opts-has opts true w) (ground arith)
    | inr u ↦ elim (Bool-cases (opt == b'w')) [
      | inl x ↦ rw (e, u, x, read_opts-has opts v true) (ground arith)
      | inr x ↦ rw (e, u, x, read_opts-has opts v w) refl
    ]
  ]
]

guard_name-run_on :
    (check : NameCheck) (next : Command) (name : List ℕ) (flags : Flags)
    → (guard_name check next ≡ run_on name flags) ↔ ((check ≡ name_ok) × (next ≡ run_on name flags))
unfolding guard_name
guard_name-run_on name_ok next name flags = (λ h. (refl, h), λ h. h.1)
guard_name-run_on unrecognized next name flags = (λ h. absurd (cc), λ h. absurd (cc))
guard_name-run_on (unsupported dot) next name flags = (λ h. absurd (cc), λ h. absurd (cc))

-- The names behind the options lead to a run.
pub record AreNames (argv : List (List ℕ)) (optind : ℕ) (name : List ℕ) : Type 0 where
  pub argument : optind ≢ length argv
  pub input : name ≡ get_or argv optind []
  pub input_ok : fname_ok (get_or argv optind []) ≡ name_ok
  pub output_ok : optind + 2 ≡ length argv → fname_ok (get_or argv (optind + 1) []) ≡ name_ok

run_on-injective : (a b : List ℕ) (f g : Flags) → run_on a f ≡ run_on b g → (f ≡ g) × (b ≡ a)
run_on-injective a b f g h = (cc, cc)

read_names-AreNames :
    (argv : List (List ℕ)) (optind : ℕ) (flags flags' : Flags) (name : List ℕ)
    → (read_names argv optind flags ≡ run_on name flags')
      ↔ ((flags ≡ flags') × AreNames argv optind name)
unfolding read_names
read_names-AreNames argv optind flags flags' name =
    let input = get_or argv optind [] in
    let output = get_or argv (optind + 1) [] in
    let first = guard_name-run_on (fname_ok input) in
    let second = guard_name-run_on (fname_ok output) (run_on input flags) name flags' in
    elim (Bool-cases (optind == length argv)) [
      | inl e ↦
          rw e (λ h. absurd (cc), λ (_, k). absurd (k.argument ((==_iff optind (length argv)).0 e)))
      | inr e ↦
          let named : optind ≢ length argv = ground arith in
          elim (Bool-cases (optind + 2 == length argv)) [
            | inl u ↦
                rw (e, u)
                  (
                    λ h.
                        let (p, h2) =
                          (first (guard_name (fname_ok output) (run_on input flags)) name flags').0
                            h in
                        let (q, h3) = second.0 h2 in
                        let (same, at_name) = run_on-injective input name flags flags' h3 in
                        (
                          same,
                          record {
                            argument = named;
                            input = at_name;
                            input_ok = p;
                            output_ok = λ _. q;
                          },
                        ),
                    λ (same, k).
                        let q = k.output_ok ((==_iff (optind + 2) (length argv)).0 u) in
                        let at_name = k.input in
                        (first (guard_name (fname_ok output) (run_on input flags)) name flags').1
                          (k.input_ok, second.1 (q, cc)),
                  )
            | inr u ↦
                rw (e, u)
                  (
                    λ h.
                        let (p, h2) = (first (run_on input flags) name flags').0 h in
                        let (same, at_name) = run_on-injective input name flags flags' h2 in
                        (
                          same,
                          record {
                            argument = named;
                            input = at_name;
                            input_ok = p;
                            output_ok = λ h3. absurd (ground (arith, h3, u));
                          },
                        ),
                    λ (same, k).
                        let at_name = k.input in
                        (first (run_on input flags) name flags').1 (k.input_ok, cc),
                  )
          ]
    ]

-- The command line of tools/exorcism/main.cpp leads to a run on a file exactly where no option is
-- `h`, an argument stands behind the options and ends in `.pla`, and, if just one more stands behind
-- it, that one ends in `.pla` too. The file is the first of them, and the flags are the options that
-- occur.
pub command_line-AreNames :
    (argv : List (List ℕ)) (found : GetOpt) (name : List ℕ) (flags : Flags)
    → (command_line argv found ≡ run_on name flags) ↔ (
        (has b'h' found.opts ≡ false)
        × (flags ≡ flags_of (has b'v' found.opts) (has b'w' found.opts))
        × AreNames argv found.optind name)
unfolding command_line
command_line-AreNames argv found name flags =
    let spelled = flags_of (has b'v' found.opts) (has b'w' found.opts) in
    let names = read_names-AreNames argv found.optind spelled flags name in
    elim (Bool-cases (has b'h' found.opts)) [
      | inl e ↦
          rw (command_line, read_opts-has found.opts false false, e)
            (λ h. absurd (cc), λ (f, _, _). absurd (ground arith))
      | inr e ↦
          rw (command_line, read_opts-has found.opts false false, e)
            (
              λ h. let (same, k) = names.0 h in (refl, sym same, k),
              λ (f, same, k). names.1 (sym same, k),
            )
    ]
