-- ===== src/Drivers.antt =====
-- The drivers under Drivers/Src.
pub mod Uart
pub mod Servo
pub mod Ultrasonic
pub mod I2c
pub mod Registers
pub mod Gpio
pub mod Adc
pub mod Spi
pub mod Pins
pub mod Timers
