-- ===== src/Segregation.antt =====
-- control_data_segregation/main.c: the classifier, and the loop that sorts packets into two rings.
pub mod Classify
pub mod Loop
mod Tests
