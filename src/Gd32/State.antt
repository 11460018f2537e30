-- ===== src/Gd32/State.antt =====
-- state.rs: `ComponentState`. A signed velocity is the bit pattern of its i16.
use vacuum_tiger.Prelude.{ℕ, min, Bool, false, ◌||◌, ltb}

abbrev pub default_lidar_pwm : ℕ
default_lidar_pwm = 60

-- `F32` is the type f32, of the two calibration scales, which nothing here computes with.
module _ (F32 : Type 0) where
  pub record ComponentState : Type 0 where
    pub vacuum : ℕ
    pub main_brush : ℕ
    pub side_brush : ℕ
    pub water_pump : ℕ
    pub motor_mode_set : Bool
    pub lidar_enabled : Bool
    pub lidar_pwm : ℕ
    pub linear_velocity : ℕ
    pub angular_velocity : ℕ
    pub wheel_motor_enabled : Bool
    pub linear_velocity_scale : F32
    pub angular_velocity_scale : F32

  unfoldable pub new : ℕ → F32 → F32 → ComponentState
  new lidar_pwm linear_velocity_scale angular_velocity_scale = record {
    vacuum = 0;
    main_brush = 0;
    side_brush = 0;
    water_pump = 0;
    motor_mode_set = false;
    lidar_enabled = false;
    lidar_pwm = min lidar_pwm 100;
    linear_velocity = 0;
    angular_velocity = 0;
    wheel_motor_enabled = false;
    linear_velocity_scale = linear_velocity_scale;
    angular_velocity_scale = angular_velocity_scale;
  }

  unfoldable pub clear_all : ComponentState → ComponentState
  clear_all s = record s {
    vacuum = 0;
    main_brush = 0;
    side_brush = 0;
    water_pump = 0;
    lidar_enabled = false;
    lidar_pwm = default_lidar_pwm;
    linear_velocity = 0;
    angular_velocity = 0;
    wheel_motor_enabled = false;
    motor_mode_set = false;
  }

  unfoldable pub any_active : ComponentState → Bool
  any_active s =
      ltb 0 s.vacuum
      || (ltb 0 s.main_brush
          || (ltb 0 s.side_brush
              || (ltb 0 s.water_pump || (s.lidar_enabled || s.wheel_motor_enabled))))

  unfoldable pub get_velocities : ComponentState → ℕ × ℕ
  get_velocities s = (s.linear_velocity, s.angular_velocity)

  unfoldable pub get_component_speeds : ComponentState → ℕ × ℕ × ℕ × ℕ
  get_component_speeds s = (s.vacuum, s.main_brush, s.side_brush, s.water_pump)

  unfoldable pub get_lidar_pwm : ComponentState → ℕ
  get_lidar_pwm s = s.lidar_pwm

  unfoldable pub get_velocity_scales : ComponentState → F32 × F32
  get_velocity_scales s = (s.linear_velocity_scale, s.angular_velocity_scale)
