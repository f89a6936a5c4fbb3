-- ===== src/Gateway/Json.antt =====
-- The values that `json.loads` gives, over a type of numbers.
use ara_nes_lms_core.Base.{String, Bool}

-- `items` holds the elements of a list, `fields` the keys of a dictionary in insertion order.
mutual
  pub data Json (N : Type 0) : Type 0 where
    null : Json N
    boolean : Bool → Json N
    number : N → Json N
    string : String → Json N
    array : Items N → Json N
    object : Fields N → Json N

  pub data Items (N : Type 0) : Type 0 where
    no_items : Items N
    item : Json N → Items N → Items N

  pub data Fields (N : Type 0) : Type 0 where
    no_fields : Fields N
    field : String → Json N → Fields N → Fields N
