-- ===== src/Parsing.antt =====
-- utils/parsing.py: the rows of Kismet and Bettercap, from an upload to a normalised observation.
pub mod Interpreter
pub mod Text
pub mod Rows
pub mod Numbers
pub mod Mac
pub mod Spelling
pub mod Flatten
pub mod Services
pub mod Identity
pub mod Bluetooth
pub mod Wifi
pub mod Alerts
pub mod Uploads
pub mod Found
pub mod Kept
pub mod Company
pub mod Normal
pub mod WifiNormal
mod Tests
