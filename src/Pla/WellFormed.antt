-- ===== src/Pla/WellFormed.antt =====
-- The reader as a whole: what it returns against what the header declares.
use losys.Base.{
  ℕ, zero, suc, ◌+◌, ◌≤◌, ◌<◌, ◌&&◌, ◌==◌, ==_iff, some, List, [], length, ◌≡◌, arith, Bool-cases,
  inl, inr, Returns,
}
use losys.Kernel.TwoLvl32.{TwoLvl32, Kind, parse_kind, add_cube}
use losys.Kernel.TwoLvl32.Shape.{IsTwoLvl, add_cube-IsTwoLvl, declared-IsTwoLvl}
use losys.Pla.Stream.{Stream, filled, getline, char_at}
use losys.Pla.Progress.{left, two_lines-move}
use losys.Pla.Read.{Header, Reading, read_cubes, declared, read_pla, read_pla_header}

read_cubes-IsTwoLvl :
    (k : Kind) (n m fuel : ℕ) (s : Stream) (f : TwoLvl32) (i : ℕ)
    → n ≤ 32
    → 0 < n + m
    → left s < fuel
    → IsTwoLvl k n m f
    → Returns (read_cubes n m fuel s f i) (λ r. IsTwoLvl k n m r.two_lvl)
unfolding read_cubes
read_cubes-IsTwoLvl k n m zero s f i le pos lt h = absurd (omega arith)
read_cubes-IsTwoLvl k n m (suc fuel) s f i le pos lt h =
    let input = (getline b' ' s []).0 in
    let s1 = (getline b' ' s []).1 in
    let output = (getline b'\n' s1 []).0 in
    let s2 = (getline b'\n' s1 []).1 in
    elim (Bool-cases (char_at input 0 == b'.' && char_at input 1 == b'e')) [
      | inl t ↦ rw t h
      | inr t ↦ elim (Bool-cases (length input == n)) [
        | inr u ↦ rw (t, u) h
        | inl u ↦ elim (Bool-cases (length output == m)) [
          | inr w ↦ rw (t, u, w) h
          | inl w ↦
              let ni = (==_iff (length input) n).0 u in
              let mo = (==_iff (length output) m).0 w in
              rw (t, u, w)
                (read_cubes-IsTwoLvl k n m fuel s2 (add_cube input output f) (i + 1) le pos
                  (omega (arith, two_lines-move s))
                  (add_cube-IsTwoLvl k n m input output f le ni mo h))
        ]
      ]
    ]

-- The values of the header, and cubes within its inputs.
abbrev pub IsReading : Header → Reading → Type 0
IsReading h r = IsTwoLvl (parse_kind h.kind_name) h.n_inputs h.n_outputs r.two_lvl

-- `read_pla` returns on every text whose header declares at least one input or output and at most 32
-- inputs. The object has the kind, the inputs and the number of outputs that the header declares, and
-- its cubes lie within these inputs.
pub read_pla-IsReading :
    (fresh : TwoLvl32) (text : List ℕ) (h : Header) (s : Stream)
    → fresh.cubes ≡ []
    → read_pla_header (filled text) ≡ some (h, s)
    → h.n_inputs ≤ 32
    → 0 < h.n_inputs + h.n_outputs
    → Returns (read_pla fresh (some text)) (IsReading h)
unfolding read_pla declared
read_pla-IsReading fresh text h s e read le pos = rw read (
    read_cubes-IsTwoLvl (parse_kind h.kind_name) h.n_inputs h.n_outputs (suc (suc (left s))) s
      (declared h fresh) 0 le pos (omega arith)
      (declared-IsTwoLvl h.kind_name h.n_inputs h.n_outputs fresh e))
