-- ===== src/Db/Types.antt =====
-- db-engineering/src/include/db/type/type.h and src/type/type.cc.
use cs_system_lab.Prelude.{ℕ, ◌^◌, ◌-◌, ◌*◌, ◌≡◌, refl, ◌⊎◌, inl, inr, Bool, true, false, ◌&&◌, leb}
use cs_system_lab.Prelude.Bytes.{Bytes, codes}

pub data TypeId : Type 0 where
  invalid boolean tinyint smallint integer bigint float double varchar timestamp : TypeId

-- The value of the `uint8_t` behind the enumeration.
abbrev pub ordinal : TypeId → ℕ
ordinal invalid = 0
ordinal boolean = 1
ordinal tinyint = 2
ordinal smallint = 3
ordinal integer = 4
ordinal bigint = 5
ordinal float = 6
ordinal double = 7
ordinal varchar = 8
ordinal timestamp = 9

unfoldable pub type_name : TypeId → Bytes
type_name boolean = codes "BOOLEAN"
type_name tinyint = codes "TINYINT"
type_name smallint = codes "SMALLINT"
type_name integer = codes "INTEGER"
type_name bigint = codes "BIGINT"
type_name float = codes "FLOAT"
type_name double = codes "DOUBLE"
type_name varchar = codes "VARCHAR"
type_name timestamp = codes "TIMESTAMP"
type_name _ = codes "INVALID"

unfoldable pub type_size : TypeId → ℕ
type_size boolean = 1
type_size tinyint = 1
type_size smallint = 2
type_size integer = 4
type_size bigint = 8
type_size float = 4
type_size double = 8
type_size timestamp = 8
type_size varchar = 0
type_size _ = 0

unfoldable pub is_numeric : TypeId → Bool
is_numeric id = leb (ordinal tinyint) (ordinal id) && leb (ordinal id) (ordinal double)

unfoldable pub is_integer : TypeId → Bool
is_integer id = leb (ordinal tinyint) (ordinal id) && leb (ordinal id) (ordinal bigint)

-- A numeric type either is an integer type, and then each is twice as large as the one before it,
-- from one byte for a TINYINT on; or it is none, and then FLOAT has four bytes and DOUBLE has
-- eight.
is_numeric-type_size :
    (id : TypeId)
    → is_numeric id ≡ true
    → ((is_integer id ≡ true) × (type_size id ≡ 2 ^ (ordinal id - ordinal tinyint)))
      ⊎ ((is_integer id ≡ false) × (type_size id ≡ 4 * (ordinal id - ordinal bigint)))
unfolding is_numeric is_integer type_size
is_numeric-type_size tinyint h = inl (refl, refl)
is_numeric-type_size smallint h = inl (refl, refl)
is_numeric-type_size integer h = inl (refl, refl)
is_numeric-type_size bigint h = inl (refl, refl)
is_numeric-type_size float h = inr (refl, refl)
is_numeric-type_size double h = inr (refl, refl)
is_numeric-type_size invalid h = absurd (cc)
is_numeric-type_size boolean h = absurd (cc)
is_numeric-type_size varchar h = absurd (cc)
is_numeric-type_size timestamp h = absurd (cc)
