-- ===== src/Types.antt =====
-- sangamio/src/core/types.rs: the values and commands that the drivers share.
use Prim.Native.String.{String}
use vacuum_tiger.Prelude.{ℕ, List, Bool, Option}

-- The floating point types, and `(a * b) as i16` on f32 as a bit pattern.
pub record Floats : Type 1 where
  pub F32 : Type 0
  pub F64 : Type 0
  pub mul_as_i16 : F32 → F32 → ℕ

module _ (fl : Floats) where
  open fl use {F32, F64}

  -- An integer is its bit pattern.
  pub data SensorValue : Type 0 where
    bool : Bool → SensorValue
    u8 : ℕ → SensorValue
    u16 : ℕ → SensorValue
    u32 : ℕ → SensorValue
    u64 : ℕ → SensorValue
    i8 : ℕ → SensorValue
    i16 : ℕ → SensorValue
    i32 : ℕ → SensorValue
    i64 : ℕ → SensorValue
    f32 : F32 → SensorValue
    f64 : F64 → SensorValue
    string : String → SensorValue
    bytes : List ℕ → SensorValue
    vector3 : F32 × F32 × F32 → SensorValue
    point_cloud2_d : List (F32 × F32 × ℕ) → SensorValue

  -- `HashMap<String, SensorValue>`, as its `get`.
  abbrev pub Config : Type 0
  Config = String → Option SensorValue

  pub data ComponentAction : Type 0 where
    enable : Option Config → ComponentAction
    disable : Option Config → ComponentAction
    reset : Option Config → ComponentAction
    configure : Config → ComponentAction

  pub data Command : Type 0 where
    component_control : String → ComponentAction → Command
    protocol_sync : Command
    shutdown : Command
