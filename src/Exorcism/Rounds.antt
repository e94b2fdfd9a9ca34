-- ===== src/Exorcism/Rounds.antt =====
-- When the loop of `run` stops: the iterations that it makes, and which of them have a gain.
use losys.Base.{
  ℕ, zero, suc, ◌+◌, ◌≤◌, ◌≡◌, refl, sym, ap, ◌∙◌, Bool, true, false, not, ◌&&◌, ◌||◌, ◌==◌, leb,
  some, IfSome, IfSome-map, IfSome-bind, IfSome-self, List, [], ◌∷◌, length, Bool-cases, inl, inr,
  arith,
}
use losys.Kernel.CubeSet.{HashOrder}
use losys.Exorcism.Manager.{ExorcismMngr}
use losys.Exorcism.Run.{iteration, is_positive, count_without, run_loop}

-- Iterations from one state to another; the list tells of each whether it had a gain.
pub data Iterates (o : HashOrder) : ExorcismMngr → List Bool → ExorcismMngr → Type 0 where
  stop : (m : ExorcismMngr) → Iterates o m [] m
  again :
      (m m1 m' : ExorcismMngr) (gain : ℕ) (gains : List Bool)
      → iteration o m ≡ some (gain, m1)
      → Iterates o m1 gains m'
      → Iterates o m (is_positive gain ∷ gains) m'

-- The list starts with so many iterations without a gain.
unfoldable pub starts_idle : ℕ → List Bool → Bool
starts_idle zero gains = true
starts_idle (suc k) [] = false
starts_idle (suc k) (g ∷ gains) = not g && starts_idle k gains

-- The first three iterations in a row without a gain are the last three.
unfoldable pub ends_idle : List Bool → Bool
unfolding starts_idle
ends_idle [] = false
ends_idle (g ∷ gains) =
    (starts_idle 3 (g ∷ gains) && length gains == 2)
    || (not (starts_idle 3 (g ∷ gains)) && ends_idle gains)

-- So many iterations without a gain in front.
abbrev idle : ℕ → List Bool → List Bool
idle zero gains = gains
idle (suc w) gains = false ∷ idle w gains

-- Iterations to a state at which the loop stops, with `w` iterations without a gain before them.
abbrev pub Stops : HashOrder → ℕ → ℕ → ExorcismMngr → ExorcismMngr → Type 0
Stops o fuel w m m' =
    (gains : List Bool) × Iterates o m gains m'
    × (length gains ≤ fuel)
    × (ends_idle (idle w gains) ≡ true)

-- An iteration with a gain ends the row.
ends_idle-gain :
    (w : ℕ) (gains : List Bool)
    → w ≤ 2
    → ends_idle gains ≡ true
    → ends_idle (idle w (true ∷ gains)) ≡ true
unfolding ends_idle
ends_idle-gain zero gains le e = e
ends_idle-gain (suc zero) gains le e = e
ends_idle-gain (suc (suc zero)) gains le e = e
ends_idle-gain (suc (suc (suc w))) gains le e = absurd (omega arith)

idle_next : (w : ℕ) (gains : List Bool) → idle w (false ∷ gains) ≡ idle (suc w) gains
idle_next zero gains = refl
idle_next (suc w) gains = ap (λ gs. false ∷ gs) (idle_next w gains)

-- The gains of the iterations behind this one, with the count that they start from.
ends_idle-count :
    (w gain : ℕ) (gains : List Bool)
    → w ≤ 2
    → ends_idle (idle (count_without gain w) gains) ≡ true
    → ends_idle (idle w (is_positive gain ∷ gains)) ≡ true
unfolding count_without
ends_idle-count w gain gains le e = elim (Bool-cases (is_positive gain)) [
  | inl q ↦ rw q (ends_idle-gain w gains le (rw q at e))
  | inr q ↦
      let next : w + 1 ≡ suc w = omega arith in
      rw (q, idle_next w gains) (ap (λ k. ends_idle (idle k gains)) (sym next) ∙ (rw q at e))
]

-- The loop stops when the count reaches three.
last_idle :
    (w gain : ℕ)
    → w ≤ 2
    → leb (count_without gain w) 2 ≡ false
    → ends_idle (idle w (is_positive gain ∷ [])) ≡ true
unfolding count_without ends_idle
last_idle w gain le e = elim (Bool-cases (is_positive gain)) [
  | inl q ↦ absurd (ground (arith, q, e))
  | inr q ↦ let two : w ≡ 2 = ground (arith, q, e) in rw (two, q) refl
]

module _ (o : HashOrder) where
  pub run_loop-Stops :
      (fuel w : ℕ) (m : ExorcismMngr) → w ≤ 2 → IfSome (Stops o fuel w m) (run_loop o fuel w m)
  unfolding run_loop
  run_loop-Stops zero w m le = tt
  run_loop-Stops (suc fuel) w m le =
      IfSome-bind (iteration o m)
        (λ r. elim (leb (count_without r.0 w) 2) [
          | true ↦ run_loop o fuel (count_without r.0 w) r.1
          | false ↦ some r.1
        ])
        (λ r. iteration o m ≡ some r) (Stops o (suc fuel) w m) (IfSome-self (iteration o m))
        λ r q. elim (Bool-cases (leb (count_without r.0 w) 2)) [
          | inl e ↦ rw e (
              IfSome-map (run_loop o fuel (count_without r.0 w) r.1)
                (Stops o fuel (count_without r.0 w) r.1) (Stops o (suc fuel) w m)
                (run_loop-Stops fuel (count_without r.0 w) r.1 (ground arith))
                λ m' (gains, its, len, ends). (
                  is_positive r.0 ∷ gains,
                  Iterates.again m r.1 m' r.0 gains q its,
                  omega (arith, len),
                  ends_idle-count w r.0 gains le ends,
                ))
          | inr e ↦ rw e (
            is_positive r.0 ∷ [],
            Iterates.again m r.1 r.1 r.0 [] q (Iterates.stop r.1),
            omega arith,
            last_idle w r.0 le e,
          )
        ]
