-- ===== src/Modelfile/Samples.antt =====
-- The theorems about the Modelfile at concrete inputs, and the functions run on them.
mod Language
mod Written
mod Folder
