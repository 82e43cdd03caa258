-- ===== src/System.antt =====
-- system/Time.hpp and Time.cpp stand on std::get_time, which the model takes as it comes.
pub mod Times
