-- ===== src/Floats.antt =====
-- `double`, with the operations of it and of std::stod that the program uses. The numbers are not
-- modelled: a proof that needs a law of them names it as a hypothesis.
use trade_station.Common.{ℕ, Bool, ◌||◌, Option, String}

pub record Floats : Type 1 where
  pub D : Type 0
  pub nought : D
  pub lt : D → D → Bool
  pub eq : D → D → Bool
  pub plus : D → D → D
  pub minus : D → D → D
  pub times : D → D → D
  pub over : D → D → D
  pub abs : D → D
  -- The literal `m * 10^-e`.
  pub lit : ℕ → ℕ → D
  -- std::stod; `none` is an exception.
  pub stod : String → Option D

abbrev pub le : (F : Floats) → F.D → F.D → Bool
le F a b = F.lt a b || F.eq a b

-- `x > 0`
abbrev pub is_pos : (F : Floats) → F.D → Bool
is_pos F x = F.lt F.nought x
