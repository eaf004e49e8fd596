-- ===== src/Formula/Double.antt =====
-- The doubles of JavaScript, as compute.util.ts uses them: the language's own, of which nothing is
-- assumed here.
use nocode_app.Base.{Text, Bool, ℕ, List}
use nocode_app.Json.{Json}

pub record Double : Type 1 where
  pub Num : Type 0
  pub of_nat : ℕ → Num
  pub add : Num → Num → Num
  pub sub : Num → Num → Num
  pub mul : Num → Num → Num
  pub div : Num → Num → Num
  pub neg : Num → Num
  pub eq : Num → Num → Bool  -- `===`
  pub lt : Num → Num → Bool
  pub le : Num → Num → Bool
  pub is_nan : Num → Bool
  pub is_finite : Num → Bool
  pub minimum : List Num → Num  -- `Math.min(...args)`
  pub maximum : List Num → Num
  pub abs : Num → Num
  pub round : Num → Num
  pub floor : Num → Num
  pub ceil : Num → Num
  pub parse_float : Text → Num
  pub number_of : Json Num → Num  -- `Number(v)`
  pub string_of : Json Num → Text  -- `String(v)`
  pub is_blank : Text → Bool  -- `s.trim() === ''`
