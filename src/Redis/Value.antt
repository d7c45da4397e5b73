-- ===== src/Redis/Value.antt =====
-- The reply type `redis::Value` of the redis crate, with the variants that the driver matches on.
use redis_rs_py.Base.{Bool, Bytes, ℕ}
use redis_rs_py.Base.Int.{ℤ}

-- An `f64` by its 64 bits; the driver passes floats on and never computes with these.
abbrev pub F64 : Type 0
F64 = ℕ

-- `big_number` holds the decimal text, `server_error` and `other` the `Debug` text; the `kind` of a
-- push and the attributes of an attribute are never read.
mutual
  pub data Value : Type 0 where
    nil : Value
    int : ℤ → Value
    bulk_string : Bytes → Value
    simple_string : Bytes → Value
    boolean : Bool → Value
    double : F64 → Value
    okay : Value
    array : Values → Value
    map : Entries → Value
    set : Values → Value
    attribute : Value → Value
    push : Values → Value
    big_number : Bytes → Value
    verbatim_string : Bytes → Value
    server_error : Bytes → Value
    other : Bytes → Value

  pub data Values : Type 0 where
    no_values : Values
    cons : Value → Values → Values

  pub data Entries : Type 0 where
    no_entries : Entries
    entry : Value → Value → Entries → Entries
