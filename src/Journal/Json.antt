-- ===== src/Journal/Json.antt =====
-- packages/journal/src/json.ts: the values a body may hold. A value is a tree here, so no value is
-- a cycle.
use ambion.Common.{ℕ, Bool, true, false, ◌&&◌, Text}

mutual
  pub data Value : Type 0 where
    null undefined : Value
    boolean : Bool → Value
    text : Text → Value
    -- a whole number from 0 on
    whole : ℕ → Value
    -- any other finite number
    finite : ℕ → Value
    -- NaN and the infinities
    not_finite : Value
    -- a function, a symbol or a bigint
    opaque : Value
    array : Items → Value
    plain : Members → Value
    -- an object of a class
    instance_of : Members → Value

  pub data Items : Type 0 where
    nil : Items
    item : Value → Items → Items

  pub data Members : Type 0 where
    end : Members
    member : Text → Value → Members → Members

unfoldable mutual
  -- `assertJson` does not throw
  pub is_json : Value → Bool
  is_json null = true
  is_json (boolean b) = true
  is_json (text s) = true
  is_json (whole n) = true
  is_json (finite n) = true
  is_json (array xs) = items_json xs
  is_json (plain ms) = members_json ms
  is_json undefined = false
  is_json not_finite = false
  is_json opaque = false
  is_json (instance_of ms) = false

  pub items_json : Items → Bool
  items_json nil = true
  items_json (item v xs) = is_json v && items_json xs

  pub members_json : Members → Bool
  members_json end = true
  members_json (member key v ms) = is_json v && members_json ms
