-- ===== src/Pipeline/Examples.antt =====
-- A small AIG collapsed and exorcised.
use mathlib.Core.List.Permᴰ
use losys.Base.{true, false, refl, [], ◌∷◌, arith, Returns, ◌>>=◌}
use losys.Kernel.CubeSet.{HashOrder}
use losys.Aig.{Gia, run}
use losys.Aig.Correct.{IsAig, Collapses}
use losys.Exorcism.Run.{exorcise}
use losys.Pipeline.{run-exorcise}

-- New elements come first.
abbrev front : HashOrder
front = record { place = λ c s. c ∷ s; place_perm = λ c s. Permᴰ.refl (c ∷ s) }

-- x0 and not x1.
abbrev differs : Gia
differs = record {
  n_objs = 5;
  ci_ids = 1 ∷ 2 ∷ [];
  ands = record { id = 3; fanin0 = 1; compl0 = false; fanin1 = 2; compl1 = true } ∷ [];
  cos = record { fanin = 3; compl = false } ∷ [];
}

differs-IsAig : IsAig differs
differs-IsAig = record {
  inputs = (refl, omega arith, (refl, omega arith, tt));
  order = (refl, refl, refl, omega arith, tt);
  outputs = (refl, tt);
}

run-exorcise_example : Returns (run front differs >>= exorcise front) (λ f. Collapses differs f)
run-exorcise_example = run-exorcise front differs (omega arith) differs-IsAig
