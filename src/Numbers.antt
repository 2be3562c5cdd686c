-- ===== src/Numbers.antt =====
-- What the servers take from the C++ library and the machine: `double`, its text, the random engine
-- and `discrete_distribution<int>`. A parameter of the models; `lit n` is the literal n / 10.
use gra_project.Base.{ℕ, Bool, List, Bytes}

pub record Numbers : Type 1 where
  pub Double : Type 0
  pub lit : ℕ → Double
  pub add : Double → Double → Double
  pub sub : Double → Double → Double
  pub mul : Double → Double → Double
  pub div : Double → Double → Double
  pub le : Double → Double → Bool
  pub of_int : ℕ → Double
  pub of_bytes : Bytes → Double
  pub to_bytes : Double → Bytes
  pub print : Double → Bytes
  pub Engine : Type 0
  pub Distribution : Type 0
  pub discrete : List Double → Distribution
  pub draw : Distribution → Engine → ℕ × Engine
