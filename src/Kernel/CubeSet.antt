-- ===== src/Kernel/CubeSet.antt =====
-- `std::unordered_set<cube32, cube32_hash>` (source/kernel/cube32.hpp and its users): the elements
-- in the order of iteration. Where an insertion puts an element, and what it does to the order of
-- the others (a rehash), is left to the `HashOrder` that every user takes as a parameter. It is a
-- function of the new element and the list; that the number of buckets also depends on elements erased
-- before is left out.
pub mod Esop
pub mod Laws
pub mod Membership
use mathlib.Core.List.{Permᴰ}
use losys.Base.{Bool, true, false, if◌then◌else◌, Option, none, some, List, [], ◌∷◌, ◌||◌}
use losys.Kernel.Cube32.{Cube32, eq}

pub record HashOrder : Type 0 where
  pub place : Cube32 → List Cube32 → List Cube32
  pub place_perm : (c : Cube32) (s : List Cube32) → Permᴰ (place c s) (c ∷ s)

unfoldable pub find : Cube32 → List Cube32 → Option Cube32
find c [] = none
find c (d ∷ s) = if eq d c then some d else find c s

unfoldable pub contains : Cube32 → List Cube32 → Bool
contains c [] = false
contains c (d ∷ s) = eq d c || contains c s

unfoldable pub erase : Cube32 → List Cube32 → List Cube32
erase c [] = []
erase c (d ∷ s) = if eq d c then s else d ∷ erase c s

unfoldable pub insert : HashOrder → Cube32 → List Cube32 → List Cube32
insert o c s = if contains c s then s else o.place c s
