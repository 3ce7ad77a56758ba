-- ===== src/Devices.antt =====
-- lib/*.c: the four device libraries. Their static variables are the fields of a `Board`, beside the
-- calls that they have made of wiringPi and of `usleep`, newest first. wiringPi itself is not
-- modelled: the results of its calls are arguments, and a pin is read back as it was last written.
pub mod Board
pub mod Led
pub mod Buzzer
pub mod Sensor
pub mod Segment
pub mod Readback
pub mod LedLaws
pub mod BuzzerLaws
pub mod SensorLaws
pub mod SegmentLaws
pub mod Tests
