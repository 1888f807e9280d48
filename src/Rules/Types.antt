-- ===== src/Rules/Types.antt =====
-- internal/service/rules.go: a rule with its conditions and actions. Times are texts, as there.
use sniffy.Common.{Bool, List}
use sniffy.Common.Int.{ℤ}
use sniffy.Common.Bytes.{Text}
use sniffy.Rules.Values.{Value, Object}

-- `InterceptCondition`; the type and the operator are texts.
pub record Condition : Type 0 where
  pub subject : Text
  pub operator : Text
  pub value : Value
  pub value2 : Value
  pub case_sensitive : Bool
  pub negate : Bool
  pub header_name : Text

-- `InterceptAction`.
pub record Action : Type 0 where
  pub kind : Text
  pub parameters : Object
  pub enabled : Bool
  pub description : Text

-- `InterceptRule`.
pub record Rule : Type 0 where
  pub id : Text
  pub name : Text
  pub description : Text
  pub enabled : Bool
  pub conditions : List Condition
  pub actions : List Action
  pub priority : ℤ
  pub logic_operator : Text
  pub tags : List Text
  pub created_at : Text
  pub updated_at : Text
