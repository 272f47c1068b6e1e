-- ===== src/Json.antt =====
-- `serde_json::Value`. An object's members are kept in order, as `BTreeMap` has them.
use pocket_oid.Base.{Bool}
use pocket_oid.Base.Int.{ℤ}
use pocket_oid.Text.{Text}

mutual
  pub data Value : Type 0 where
    null : Value
    bool : Bool → Value
    number : ℤ → Value
    string : Text → Value
    array : Items → Value
    object : Members → Value

  pub data Items : Type 0 where
    nil : Items
    cons : Value → Items → Items

  pub data Members : Type 0 where
    end : Members
    member : Text → Value → Members → Members
