-- ===== src/Devices/SensorLaws.antt =====
-- What `sensor_read` of lib/cds.c returns.
use linux_veda_4sensor_tcp_c.Prelude.{◌≡◌, ◌⊎◌, is_neg, true, ◌||◌, arith}
use linux_veda_4sensor_tcp_c.Devices.Board.{Board}
use linux_veda_4sensor_tcp_c.Devices.Sensor.{Transfers, sensor_read}

-- A reading fails (is negative) exactly when the sensor was not opened or one of the three
-- transfers fails; one that does not fail is the second, fresh byte, and never the stale first.
pub sensor_read_lem :
    (t : Transfers) (b : Board)
    → (is_neg (sensor_read t b).0
        ≡ (is_neg b.sensor_fd || is_neg t.write || is_neg t.stale || is_neg t.fresh))
      × ((is_neg (sensor_read t b).0 ≡ true) ⊎ ((sensor_read t b).0 ≡ t.fresh))
unfolding sensor_read
sensor_read_lem t b = ground arith
