-- ===== src/Pwm/Tests.antt =====
-- The frequency and the range that `analogWriteInit` sets.
