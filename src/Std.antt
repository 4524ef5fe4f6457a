-- ===== src/Std.antt =====
-- What the sources use of the C++ standard library on texts: std::stoi, std::to_string,
-- std::getline with a delimiter, and getentropy as a parameter.
pub mod Numbers
pub mod Lines
pub mod Entropy
pub mod Json
