-- ===== src/Devices/Sensor.antt =====
-- lib/cds.c. The mutex round the three transfers keeps them together, and has no other effect.
use linux_veda_4sensor_tcp_c.Prelude.{ℤ, pos, negsuc, is_neg, if◌then◌else◌}
use linux_veda_4sensor_tcp_c.Devices.Board.{Board, call, i2c_write, i2c_read}

-- `setup` is the result of `wiringPiI2CSetup(i2c_addr)`.
unfoldable pub sensor_init : ℤ → Board → ℤ × Board
sensor_init setup b = (if is_neg setup then negsuc 0 else pos 0, record b { sensor_fd = setup })

-- What the three transfers of one reading return, if they are made.
pub record Transfers : Type 0 where
  pub write : ℤ
  pub stale : ℤ
  pub fresh : ℤ

unfoldable pub sensor_read : Transfers → Board → ℤ × Board
sensor_read t b =
    if is_neg b.sensor_fd
    then (negsuc 0, b)
    else let b₁ = call (i2c_write b.sensor_fd 0) b in
      if is_neg t.write
      then (t.write, b₁)
      else let b₂ = call (i2c_read b.sensor_fd) b₁ in
        if is_neg t.stale then (t.stale, b₂) else (t.fresh, call (i2c_read b.sensor_fd) b₂)

unfoldable pub sensor_cleanup : Board → Board
sensor_cleanup b = b
