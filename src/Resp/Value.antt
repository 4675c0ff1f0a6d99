-- ===== src/Resp/Value.antt =====
-- resp/RespValue.h: the values that the protocol carries.
use kvjet.Prelude.{ℕ, suc, Option, Bytes}
use kvjet.Prelude.Int.{ℤ}

-- `Array` is an optional vector: `nil_array` is the one without a value.
mutual
  pub data Value : Type 0 where
    simple : Bytes → Value
    bulk : Option Bytes → Value
    error : Bytes → Value
    integer : ℤ → Value
    nil_array : Value
    array : Items → Value

  pub data Items : Type 0 where
    nil : Items
    cons : Value → Items → Items

-- `vector::size`
abbrev pub size : Items → ℕ
size nil = 0
size (cons v vs) = suc (size vs)

-- `vector::push_back`
abbrev pub push_back : Items → Value → Items
push_back nil v = cons v nil
push_back (cons w ws) v = cons w (push_back ws v)
